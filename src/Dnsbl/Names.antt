-- ===== src/Dnsbl/Names.antt =====
-- Names and addresses: what is asked under the name of an address is that address.
use Prim.Native.String as Text
use Prim.Native.Char.{Char, code}
use text.Mathlib.TextLemmas.{nil-append, cons-append, length-cons, length-append}
use federloom.Prelude.{
  ◌≡◌, ◌≢◌, refl, ap, inl, inr, false, Bool-cases, ◌==◌, arith, String, str_eq, eq_iff, eq_refl, [],
  ◌∷◌, some,
}
use federloom.Enforce.{contains_char}
use federloom.Dnsbl.{strip_suffix, cons_part, split_dots, join, reverse_four, asked_ip}

different : (s t : String) → s ≢ t → str_eq s t ≡ false
different s t h = elim (Bool-cases (str_eq s t)) [
  | inl same ↦ absurd (h ((eq_iff s t).0 same))
  | inr other ↦ other
]

longer : (c : Char) (s suffix : String) → Text.◌∷◌ c (Text.◌++◌ s suffix) ≢ suffix
longer c s suffix e =
    omega (arith, ap Text.count e, length-cons c (Text.◌++◌ s suffix), length-append s suffix)

strip_suffix_self : (suffix : String) → strip_suffix suffix suffix ≡ some ""
unfolding strip_suffix
strip_suffix_self Text.[] = refl
strip_suffix_self (Text.◌∷◌ c s) = rw (eq_refl (Text.◌∷◌ c s)) refl

strip_suffix-append : (s suffix : String) → strip_suffix suffix (Text.◌++◌ s suffix) ≡ some s
unfolding strip_suffix
strip_suffix-append Text.[] suffix = rw (nil-append suffix) (strip_suffix_self suffix)
strip_suffix-append (Text.◌∷◌ c s) suffix =
    rw
      (
        cons-append c s suffix,
        strip_suffix,
        different _ _ (longer c s suffix),
        strip_suffix-append s suffix,
      )
      refl

-- A text without a dot.
abbrev pub IsLabel : String → Type 0
IsLabel s = contains_char b'.' s ≡ false

split_label : (s : String) → IsLabel s → split_dots s ≡ s ∷ []
unfolding split_dots contains_char cons_part
split_label Text.[] h = refl
split_label (Text.◌∷◌ c s) h = ground (arith, split_label s, h)

split_dot : (t : String) → split_dots (Text.◌++◌ "." t) ≡ "" ∷ split_dots t
unfolding split_dots
split_dot t = rw (cons-append "." "" t, nil-append t, split_dots) refl

split_dots-append :
    (s t : String) → IsLabel s → split_dots (Text.◌++◌ s (Text.◌++◌ "." t)) ≡ s ∷ split_dots t
unfolding split_dots contains_char cons_part
split_dots-append Text.[] t h = rw (nil-append (Text.◌++◌ "." t)) (split_dot t)
split_dots-append (Text.◌∷◌ c s) t h = elim (Bool-cases (code c == b'.')) [
  | inl dot ↦ ground (arith, h, dot)
  | inr other ↦
      rw
        (
          cons-append c s (Text.◌++◌ "." t),
          split_dots,
          other,
          split_dots-append s t (ground (arith, h, other)),
        )
        refl
]

-- The name under which an address of four labels is asked for.
abbrev pub dns_name : String → String → String → String → String → String
dns_name zone a b c d = Text.◌++◌ (join "." (d ∷ c ∷ b ∷ a ∷ [])) (Text.◌++◌ "." zone)

-- For any four texts without a dot, and any zone: the name made of them in reverse order under the
-- zone asks for the address made of them in order.
pub asked_ip-dns_name :
    (zone a b c d : String)
    → IsLabel a
    → IsLabel b
    → IsLabel c
    → IsLabel d
    → asked_ip zone (dns_name zone a b c d) ≡ some (join "." (a ∷ b ∷ c ∷ d ∷ []))
unfolding asked_ip join reverse_four
asked_ip-dns_name zone a b c d la lb lc ld =
    rw
      (
        strip_suffix-append (join "." (d ∷ c ∷ b ∷ a ∷ [])) (Text.◌++◌ "." zone),
        asked_ip,
        split_dots-append d (join "." (c ∷ b ∷ a ∷ [])) ld,
        split_dots-append c (join "." (b ∷ a ∷ [])) lc,
        split_dots-append b a lb,
        split_label a la,
      )
      refl
