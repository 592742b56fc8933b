-- ===== src/Scan/Judge/Views.antt =====
-- core/src/scan/engine.rs: the views that a catalog key is read in.
use mathlib.Core.List.{Memᴰ}
use wardsweep.Base.{
  ◌≡◌, refl, sym, ap, ◌∙◌, Bool, true, false, ℕ, [], ◌∷◌, ◌++◌, some, if◌then◌else◌, arith,
}
use wardsweep.Text.Chars.{Text, char_len, to_upper}
use wardsweep.Text.{codes, ascii_upper, byte_len, split_at_byte}
use wardsweep.Text.Laws.Case.{eq_ignore_case_iff}
use wardsweep.Text.Laws.Slices.{split_at_byte-append}
use wardsweep.Catalog.Schema
use wardsweep.Scan.Model.{RegView, bits64, bits32}
use wardsweep.Scan.Judge.{is_redirected, views}

-- A key below `HKLM\SOFTWARE`, in whatever case it is written: the only one that Windows redirects.
abbrev pub IsRedirected : Text → Type 0
IsRedirected key =
    (head rest : Text) × (key ≡ head ++ rest) × (ascii_upper head ≡ codes "HKLM\\SOFTWARE\\")

-- The views that an entry calls for.
pub data IsCalledFor (key : Text) : Schema.View → RegView → Type 0 where
  only_64 : IsCalledFor key Schema.bits64 bits64
  only_32 : IsCalledFor key Schema.bits32 bits32
  native_64 : IsCalledFor key Schema.both bits64
  redirected_32 : IsRedirected key → IsCalledFor key Schema.both bits32

char_len-to_upper : (c : ℕ) → char_len (to_upper c) ≡ char_len c
unfolding char_len to_upper
char_len-to_upper c = ground arith

byte_len-ascii_upper : (t : Text) → byte_len (ascii_upper t) ≡ byte_len t
unfolding byte_len ascii_upper
byte_len-ascii_upper [] = refl
byte_len-ascii_upper (c ∷ t) = omega (arith, char_len-to_upper c, byte_len-ascii_upper t)

prefix_len : byte_len (codes "HKLM\\SOFTWARE\\") ≡ 14
unfolding byte_len char_len
prefix_len = refl

prefix_upper : ascii_upper (codes "HKLM\\SOFTWARE\\") ≡ codes "HKLM\\SOFTWARE\\"
unfolding ascii_upper to_upper
prefix_upper = refl

IsRedirected-is_redirected : (key : Text) → IsRedirected key → is_redirected key ≡ true
unfolding is_redirected
IsRedirected-is_redirected key (head, rest, place, same) =
    let split : split_at_byte 14 key ≡ some (head, rest) =
      ap (split_at_byte 14) place
      ∙ (ap (λ n. split_at_byte n (head ++ rest))
            (sym (sym (byte_len-ascii_upper head) ∙ (ap byte_len same ∙ prefix_len)))
          ∙ split_at_byte-append head rest) in
    rw (is_redirected, split)
      ((eq_ignore_case_iff head (codes "HKLM\\SOFTWARE\\")).1 (same ∙ sym prefix_upper))

-- Every view that is called for is among those that the key is read in.
pub Mem-views :
    (key : Text) (listed : Schema.View) (view : RegView)
    → IsCalledFor key listed view
    → Memᴰ view (views key listed)
unfolding views
Mem-views key _ _ only_64 = Memᴰ.head refl
Mem-views key _ _ only_32 = Memᴰ.head refl
Mem-views key _ _ native_64 = native (is_redirected key)
  where
    native : (b : Bool) → Memᴰ bits64 (if b then bits64 ∷ bits32 ∷ [] else bits64 ∷ [])
    native true = Memᴰ.head refl
    native false = Memᴰ.head refl
Mem-views key _ _ (redirected_32 r) =
    rw (IsRedirected-is_redirected key r) (Memᴰ.tail (Memᴰ.head refl))
