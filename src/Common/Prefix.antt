-- ===== src/Common/Prefix.antt =====
-- When a text starts with another, character by character.
use Prim.Native.String.{String, [], ◌∷◌}
use text.Mathlib.Text.{starts_with, ◌==◌}
use text.Mathlib.TextBridge.{IsPrefix}
use text.Mathlib.TextEquality.{starts_with_iff}
use text.Mathlib.TextLemmas.{
  nil-append, cons-append, cons≢nil, head-eq_of_cons-eq, tail-eq_of_cons-eq,
}
use rust_high_throughput_sta.Common.{
  ◌≡◌, refl, sym, ap, ◌∙◌, Bool, true, false, ◌&&◌, eq_iff, Bool-cases, inl, inr,
}

-- The characters of `p` are the first of `key`.
abbrev pub begins : String → String → Bool
begins [] key = true
begins (c ∷ p) [] = false
begins (c ∷ p) (d ∷ key) = ((c ∷ []) == (d ∷ [])) && begins p key

both : (a b : Bool) → (a && b) ≡ true → (a ≡ true) × (b ≡ true)
both true b h = (refl, h)
both false b h = cc

begins-IsPrefix : (p key : String) → begins p key ≡ true → IsPrefix p key
begins-IsPrefix [] key h = (key, rw nil-append refl)
begins-IsPrefix (c ∷ p) [] h = cc
begins-IsPrefix (c ∷ p) (d ∷ key) h =
    let (first, others) = both ((c ∷ []) == (d ∷ [])) (begins p key) h in
    let same : c ≡ d = head-eq_of_cons-eq ((eq_iff (c ∷ []) (d ∷ [])).0 first) in
    let (rest, e) = begins-IsPrefix p key others in
    (rest, cons-append c p rest ∙ (λ i. same i ∷ e i))

IsPrefix-begins : (p key : String) → IsPrefix p key → begins p key ≡ true
IsPrefix-begins [] key h = refl
IsPrefix-begins (c ∷ p) [] (rest, e) = absurd (cons≢nil (sym (cons-append c p rest) ∙ e))
IsPrefix-begins (c ∷ p) (d ∷ key) (rest, e) =
    let same = sym (cons-append c p rest) ∙ e in
    rw
      (
        (eq_iff (c ∷ []) (d ∷ [])).1 (ap (λ x. x ∷ []) (head-eq_of_cons-eq same)),
        IsPrefix-begins p key (rest, tail-eq_of_cons-eq same),
      )
      refl

pub starts_with-eq-begins : (key p : String) → starts_with key p ≡ begins p key
starts_with-eq-begins key p =
    let there = starts_with_iff key p in
    elim (Bool-cases (begins p key)) [
      | inl e ↦ there.1 (begins-IsPrefix p key e) ∙ sym e
      | inr e ↦ elim (Bool-cases (starts_with key p)) [
        | inl f ↦ cc (e, IsPrefix-begins p key (there.0 f))
        | inr f ↦ f ∙ sym e
      ]
    ]
