-- ===== src/Scan/Registered/Registering.antt =====
-- core/src/scan/engine.rs: which driver keys register a driver.
use mathlib.Core.List.{Memᴰ}
use mathlib.Core.List.Memᴰ
use wardsweep.Base.{
  ◌≡◌, refl, sym, ap, ◌∙◌, Bool, Bool-cases, Outcome, ◌>>=◌, inl, inr, true, false, Option, none,
  some, List, [], ◌∷◌, ok, or_panic, >>=-eq-ok, subst, if◌then◌else◌,
}
use wardsweep.Text.Chars.{Text}
use wardsweep.Text.{ascii_upper, eq_ignore_case}
use wardsweep.Text.Laws.Case.{eq_ignore_case_iff}
use wardsweep.Denylist.Check.{DenyReason}
use wardsweep.Scan.View.{ServiceKey}
use wardsweep.Scan.Environment.{Environment, system_root}
use wardsweep.Scan.Image.{image_file, file_name}
use wardsweep.Scan.State.Loops.{ok-injective}
use wardsweep.Scan.Registered.{is_image_of, registering}

-- A key registers a driver: its image is a file of the driver's name, up to ASCII case.
pub record Registers (environment : Environment) (driver_file : Text) (key : ServiceKey)
    : Type 0 where
  pub image : Text
  pub configured : image_file key.image (system_root environment) ≡ some (some image)
  pub name : Text
  pub named : file_name image ≡ some name
  pub same : ascii_upper name ≡ ascii_upper driver_file

is_image_of-Registers :
    (environment : Environment) (driver_file : Text) (key : ServiceKey) (image : Option Text)
    → image_file key.image (system_root environment) ≡ some image
    → is_image_of driver_file image ≡ true
    → Registers environment driver_file key
unfolding is_image_of
is_image_of-Registers environment driver_file key none e h = cc
is_image_of-Registers environment driver_file key (some image) e h =
    by_name (file_name image) refl h
  where
    by_name :
        (name : Option Text)
        → file_name image ≡ name
        → (elim name [ some n ↦ eq_ignore_case n driver_file | none ↦ false ]) ≡ true
        → Registers environment driver_file key
    by_name none f g = cc
    by_name (some n) f g = record {
      image = image;
      configured = e;
      name = n;
      named = f;
      same = (eq_ignore_case_iff n driver_file).0 g;
    }

Registers-is_image_of :
    (environment : Environment) (driver_file : Text) (key : ServiceKey) (image : Option Text)
    → image_file key.image (system_root environment) ≡ some image
    → Registers environment driver_file key
    → is_image_of driver_file image ≡ true
unfolding is_image_of
Registers-is_image_of environment driver_file key none e r = cc (e, r.configured)
Registers-is_image_of environment driver_file key (some image) e r =
    let same_image : image ≡ r.image = cc (e, r.configured) in
    rw (is_image_of, ap file_name same_image ∙ r.named)
      ((eq_ignore_case_iff r.name driver_file).1 r.same)

or_panic_ok :
    {A : Type 0} (o : Option A) (x : A)
    → ◌≡◌ {A = Outcome DenyReason A} (or_panic o) (ok x)
    → o ≡ some x
or_panic_ok none x h = cc
or_panic_ok (some y) x h = cc

-- What one pass leaves of the keys that it has.
module _ (environment : Environment) (driver_file : Text) where
  registering-cons :
      (first : ServiceKey) (keys registered : List ServiceKey)
      → registering environment driver_file (first ∷ keys) ≡ ok registered
      → (image : Option Text) × (rest : List ServiceKey) × (image_file first.image
            (system_root environment)
          ≡ some image)
        × (registering environment driver_file keys ≡ ok rest)
        × ((if is_image_of driver_file image then first ∷ rest else rest) ≡ registered)
  unfolding registering
  registering-cons first keys registered h =
      let (image, e, after) =
        >>=-eq-ok (or_panic (image_file first.image (system_root environment)))
          (λ image. do
            rest ← registering environment driver_file keys
            ok (if is_image_of driver_file image then first ∷ rest else rest))
          h in
      let (rest, f, last) =
        >>=-eq-ok (registering environment driver_file keys)
          (λ rest. ok (if is_image_of driver_file image then first ∷ rest else rest)) after in
      (image, rest, or_panic_ok _ image e, f, ok-injective last)

  registering-nil :
      (registered : List ServiceKey)
      → registering environment driver_file [] ≡ ok registered
      → [] ≡ registered
  unfolding registering
  registering-nil registered h = ok-injective h

  pub registering-Registers :
      (keys registered : List ServiceKey) (key : ServiceKey)
      → registering environment driver_file keys ≡ ok registered
      → Memᴰ key registered
      → Memᴰ key keys × Registers environment driver_file key
  registering-Registers [] registered key h m =
      elim (subst (Memᴰ key) (sym (registering-nil registered h)) m) [ ]
  registering-Registers (first ∷ keys) registered key h m =
      let (image, rest, e, f, last) = registering-cons first keys registered h in
      elim (Bool-cases (is_image_of driver_file image)) [
        | inr other ↦
            let (there, r) =
              registering-Registers keys rest key f (
                subst (Memᴰ key) (sym last ∙ ap (λ b. if b then first ∷ rest else rest) other) m) in
            (Memᴰ.tail there, r)
        | inl ours ↦
            elim (Memᴰ.cases_cons
              (subst (Memᴰ key) (sym last ∙ ap (λ b. if b then first ∷ rest else rest) ours) m)) [
                | inl same ↦ (
                  Memᴰ.head same,
                  subst (Registers environment driver_file) (sym same)
                      (is_image_of-Registers environment driver_file first image e ours),
                )
                | inr later ↦
                    let (there, r) = registering-Registers keys rest key f later in
                    (Memᴰ.tail there, r)
              ]
      ]

  -- Every key that registers the driver is among those.
  pub Mem-registering :
      (keys registered : List ServiceKey) (key : ServiceKey)
      → registering environment driver_file keys ≡ ok registered
      → Memᴰ key keys
      → Registers environment driver_file key
      → Memᴰ key registered
  Mem-registering [] registered key h m r = elim m [ ]
  Mem-registering (first ∷ keys) registered key h m r =
      let (image, rest, e, f, last) = registering-cons first keys registered h in
      elim (Memᴰ.cases_cons m) [
        | inl same ↦
            let ours =
              Registers-is_image_of environment driver_file first image e
                (subst (Registers environment driver_file) same r) in
            subst (Memᴰ key) (ap (λ b. if b then first ∷ rest else rest) (sym ours) ∙ last)
              (Memᴰ.head same)
        | inr later ↦
            let there = Mem-registering keys rest key f later r in
            subst (Memᴰ key) last (among (is_image_of driver_file image) there)
      ]
    where
      among :
          {rest : List ServiceKey} (b : Bool)
          → Memᴰ key rest
          → Memᴰ key (if b then first ∷ rest else rest)
      among true m = Memᴰ.tail m
      among false m = m
