-- ===== src/Websource/Excerpt.antt =====
-- excerpt of app/internal/websource/service.go: at most 280 characters of a text, cut at a space.
use morgenblau.Common.{
  ℕ, zero, suc, ◌+◌, ◌≤◌, ◌≡◌, refl, Option, none, some, String, leb, eqb, arith, if◌then◌else◌,
  Bool-cases, Option-cases, inl, inr, some_inj, leb→le,
}
use Prim.Native.Char.{code}
use Prim.Native.String.{◌++◌}
use Prim.Native.String.append as Append

abbrev pub max_excerpt_runes : ℕ
max_excerpt_runes = 280

abbrev pub runes : String → ℕ
runes String.[] = 0
runes (String.◌∷◌ c s) = suc (runes s)

abbrev pub take_runes : ℕ → String → String
take_runes zero s = ""
take_runes (suc n) String.[] = ""
take_runes (suc n) (String.◌∷◌ c s) = String.◌∷◌ c (take_runes n s)

abbrev pub prepend : Option String → String → Option String
prepend none s = none
prepend (some t) s = some t

-- What stands before the last space.
unfoldable pub before_last_space : String → Option String
before_last_space String.[] = none
before_last_space (String.◌∷◌ c s) = elim (before_last_space s) [
  | some t ↦ some (String.◌∷◌ c t)
  | none ↦ if eqb (code c) 32 then some "" else none
]

-- A space at the start is no place to cut.
cut_from : String → Option String → String
cut_from text none = text
cut_from text (some String.[]) = text
cut_from text (some (String.◌∷◌ c t)) = String.◌∷◌ c t

unfoldable pub cut_at_space : String → String
unfolding cut_from before_last_space
cut_at_space text = cut_from text (before_last_space text)

-- `join_fields` is strings.Join(strings.Fields(s), " ").
unfoldable pub excerpt : (String → String) → String → String
unfolding cut_at_space
excerpt join_fields s =
    let text = join_fields s in
    if leb (runes text) max_excerpt_runes
    then text
    else cut_at_space (take_runes max_excerpt_runes text) ++ "…"

runes-append : (s t : String) → runes (s ++ t) ≡ runes s + runes t
runes-append String.[] t = rw (Append.nil t) (omega arith)
runes-append (String.◌∷◌ c s) t = rw (Append.cons c s t) (omega (arith, runes-append s t))

runes-take_runes : (n : ℕ) (s : String) → runes (take_runes n s) ≤ n
runes-take_runes zero s = omega arith
runes-take_runes (suc n) String.[] = omega arith
runes-take_runes (suc n) (String.◌∷◌ c s) = omega (arith, runes-take_runes n s)

before_last_space-shorter : (s t : String) → before_last_space s ≡ some t → runes t ≤ runes s
unfolding before_last_space
before_last_space-shorter String.[] t h = cc
before_last_space-shorter (String.◌∷◌ c s) t h = elim (Option-cases (before_last_space s)) [
  | inr (u, e) ↦
      let shorter = before_last_space-shorter s u e in
      let h' = rw e at h in rw (← some_inj h') (omega (arith, shorter))
  | inl e ↦ elim (Bool-cases (eqb (code c) 32)) [
    | inl space ↦ let h' = rw (e, space) at h in rw (← some_inj h') (omega arith)
    | inr other ↦ let h' = rw (e, other) at h in cc
  ]
]

runes-cut_at_space : (s : String) → runes (cut_at_space s) ≤ runes s
unfolding cut_at_space cut_from
runes-cut_at_space s = go (before_last_space s) refl
  where
    go : (o : Option String) → before_last_space s ≡ o → runes (cut_from s o) ≤ runes s
    go none e = omega arith
    go (some String.[]) e = omega arith
    go (some (String.◌∷◌ c t)) e = before_last_space-shorter s (String.◌∷◌ c t) e

-- An excerpt has at most 281 characters.
pub excerpt_bounded :
    (join_fields : String → String) (s : String) → runes (excerpt join_fields s) ≤ 281
unfolding excerpt
excerpt_bounded join_fields s = elim (Bool-cases (leb (runes (join_fields s)) 280)) [
  | inl short ↦ rw short (omega (arith, leb→le (runes (join_fields s)) 280 short))
  | inr long ↦ rw long (
      let cut = take_runes 280 (join_fields s) in
      omega (
        arith,
        runes-append (cut_at_space cut) "…",
        runes-cut_at_space cut,
        runes-take_runes 280 (join_fields s),
      ))
]
