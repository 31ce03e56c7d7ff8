-- ===== src/Acpclient/Files/Window.antt =====
-- The window of lines of `readTextFile`, against the lines that were asked for.
use Prim.Native.Nat.{◌^◌}
use poe_acp_relay.Base.{
  ◌≡◌, refl, sym, ap, ◌∙◌, ◌⊎◌, inl, inr, ℕ, zero, suc, ◌+◌, ◌-◌, ◌%◌, ◌≤◌, ◌<◌, String, Option,
  none, some, List, [], ◌∷◌, ◌++◌, length, take, drop, take-drop, length-take, ltb, arith,
  Bool-cases,
}
use poe_acp_relay.Acpclient.Files.{pos, neg, wrap, less, window_start, window_end, slice, window}

take_all : (n : ℕ) (lines : List String) → length lines ≤ n → take n lines ≡ lines
take_all zero [] h = refl
take_all zero (x ∷ lines) h = absurd (omega (arith, h))
take_all (suc n) [] h = refl
take_all (suc n) (x ∷ lines) h = ap (λ ls. x ∷ ls) (take_all n lines (omega (arith, h)))

drop_all : (n : ℕ) (lines : List String) → length lines ≤ n → drop n lines ≡ []
drop_all zero [] h = refl
drop_all zero (x ∷ lines) h = absurd (omega (arith, h))
drop_all (suc n) [] h = refl
drop_all (suc n) (x ∷ lines) h = drop_all n lines (omega (arith, h))

length-drop : (n : ℕ) (lines : List String) → length (drop n lines) ≡ length lines - n
length-drop zero lines = omega arith
length-drop (suc n) [] = omega arith
length-drop (suc n) (x ∷ lines) = omega (arith, length-drop n lines)

take_nil : (n : ℕ) → take {A = String} n [] ≡ []
take_nil zero = refl
take_nil (suc n) = refl

window_start_lem :
    (line n : ℕ)
    → 0 < line
    → ((window_start (some line) n ≡ line - 1) × (line - 1 ≤ n))
      ⊎ ((window_start (some line) n ≡ n) × (n ≤ line - 1))
unfolding window_start
window_start_lem line n first = elim (Bool-cases (ltb n (line - 1))) [
  | inl e ↦ inr (ground (arith, e, first), ground (arith, e))
  | inr e ↦ inl (ground (arith, e, first), ground (arith, e))
]

wrap_fits : (n : ℕ) → n < 2 ^ 63 → wrap n ≡ pos n
unfolding wrap
wrap_fits n fits = let same : n % 2 ^ 64 ≡ n = omega (arith, fits) in rw same (ground (arith, fits))

wrap_over : (n : ℕ) → 2 ^ 63 ≤ n → n < 2 ^ 64 → wrap n ≡ neg (2 ^ 64 - n)
unfolding wrap
wrap_over n over in_64 =
    let same : n % 2 ^ 64 ≡ n = omega (arith, in_64) in rw same (ground (arith, over))

window_end_lem :
    (start limit n : ℕ)
    → 0 < limit
    → start + limit < 2 ^ 63
    → ((window_end start (some limit) n ≡ pos (start + limit)) × (start + limit ≤ n))
      ⊎ ((window_end start (some limit) n ≡ pos n) × (n ≤ start + limit))
unfolding window_end less
window_end_lem start limit n some_lines fits = elim (Bool-cases (ltb (start + limit) n)) [
  | inl e ↦
      inl (rw (wrap_fits (start + limit) fits) (ground (arith, e, some_lines)), ground (arith, e))
  | inr e ↦
      inr (rw (wrap_fits (start + limit) fits) (ground (arith, e, some_lines)), ground (arith, e))
]

window_def :
    (line limit : Option ℕ) (lines : List String) (start : ℕ)
    → window_start line (length lines) ≡ start
    → window line limit lines ≡ slice start (window_end start limit (length lines)) lines
unfolding window window_start window_end slice
window_def line limit lines start h = ap (λ s. slice s (window_end s limit (length lines)) lines) h

slice_in :
    (start end : ℕ) (lines : List String)
    → start ≤ end
    → end ≤ length lines
    → slice start (pos end) lines ≡ some (take (end - start) (drop start lines))
unfolding slice
slice_in start end lines ordered within = ground (arith, ordered, within)

slice-neg : (start k : ℕ) (lines : List String) → slice start (neg k) lines ≡ none
unfolding slice
slice-neg start k lines = refl

-- The two ends of the file: a window that starts there is empty, and one that ends there has the rest.
slice_end :
    (line : ℕ) (lines : List String)
    → length lines ≤ line
    → slice (length lines) (pos (length lines)) lines ≡ some (drop line lines)
slice_end line lines h =
    let n = length lines in
    slice_in n n lines (omega arith) (omega arith)
    ∙ ap some (
        ap (take (n - n)) (drop_all n lines (omega arith))
        ∙ (take_nil (n - n) ∙ sym (drop_all line lines h)))

slice_rest :
    (start : ℕ) (lines : List String)
    → start ≤ length lines
    → slice start (pos (length lines)) lines ≡ some (drop start lines)
slice_rest start lines h =
    slice_in start (length lines) lines h (omega arith)
    ∙ ap some (
        take_all (length lines - start) (drop start lines) (omega (arith, length-drop start lines)))

take-drop_all :
    (line limit : ℕ) (lines : List String)
    → length lines ≤ line + limit
    → take limit (drop line lines) ≡ drop line lines
take-drop_all line limit lines h =
    take_all limit (drop line lines) (omega (arith, length-drop line lines, h))

-- A window from a line on, of so many lines, whose end fits in an `int`.
window_lem :
    (line limit : ℕ) (lines : List String)
    → 0 < line
    → 0 < limit
    → line + limit ≤ 2 ^ 63
    → window (some line) (some limit) lines ≡ some (take limit (drop (line - 1) lines))
window_lem line limit lines first some_lines fits =
    let n = length lines in
    elim (window_start_lem line n first) [
      | inl (s, within) ↦
          window_def (some line) (some limit) lines (line - 1) s
          ∙ elim (window_end_lem (line - 1) limit n some_lines (omega (arith, fits, first))) [
            | inl (e, short) ↦
                ap (λ end. slice (line - 1) end lines) e
                ∙ (slice_in (line - 1) (line - 1 + limit) lines (omega arith) short
                    ∙ ap (λ k. some (take k (drop (line - 1) lines))) (omega arith))
            | inr (e, past) ↦
                ap (λ end. slice (line - 1) end lines) e
                ∙ (slice_rest (line - 1) lines within
                    ∙ ap some (sym (take-drop_all (line - 1) limit lines past)))
          ]
      | inr (s, past) ↦
          window_def (some line) (some limit) lines n s
          ∙ (elim (window_end_lem n limit n some_lines (omega (arith, fits, first, past))) [
            | inl (_, short) ↦ absurd (omega (arith, short, some_lines))
            | inr (e, _) ↦ ap (λ end. slice n end lines) e ∙ slice_end (line - 1) lines past
          ]
              ∙ ap some (sym (take-drop_all (line - 1) limit lines (omega (arith, past)))))
    ]

window_end-none : (start n : ℕ) → window_end start none n ≡ pos n
unfolding window_end
window_end-none start n = refl

drop-drop : (a b : ℕ) (lines : List String) → drop (a + b) lines ≡ drop b (drop a lines)
drop-drop zero b lines = ap (λ k. drop k lines) (omega arith)
drop-drop (suc a) b [] = drop_all (suc a + b) [] (omega arith) ∙ sym (drop_all b [] (omega arith))
drop-drop (suc a) b (x ∷ lines) =
    let e : suc a + b ≡ suc (a + b) = omega arith in
    ap (λ k. drop k (x ∷ lines)) e ∙ drop-drop a b lines

window_end_over :
    (start limit n : ℕ)
    → 0 < limit
    → 2 ^ 63 ≤ start + limit
    → start + limit < 2 ^ 64
    → window_end start (some limit) n ≡ neg (2 ^ 64 - (start + limit))
unfolding window_end less
window_end_over start limit n some_lines over in_64 =
    rw (wrap_over (start + limit) over in_64) (ground (arith, some_lines))

-- A window from a line on, with no limit.
window_rest :
    (line : ℕ) (lines : List String)
    → 0 < line
    → window (some line) none lines ≡ some (drop (line - 1) lines)
window_rest line lines first = elim (window_start_lem line (length lines) first) [
  | inl (s, within) ↦
      window_def (some line) none lines (line - 1) s
      ∙ (ap (λ end. slice (line - 1) end lines) (window_end-none (line - 1) (length lines))
          ∙ slice_rest (line - 1) lines within)
  | inr (s, past) ↦
      window_def (some line) none lines (length lines) s
      ∙ (ap (λ end. slice (length lines) end lines) (window_end-none (length lines) (length lines))
          ∙ slice_end (line - 1) lines past)
]

-- A window whose end fits in an `int` is the lines that were asked for, and none that are not there;
-- with the window from the line behind it on it makes up the rest of the file.
pub window-slice :
    (line limit : ℕ) (lines : List String)
    → 0 < line
    → 0 < limit
    → line + limit ≤ 2 ^ 63
    → (front : List String) × (back : List String) × (window (some line) (some limit) lines
        ≡ some front)
      × (window (some (line + limit)) none lines ≡ some back)
      × (length front ≤ limit)
      × (front ++ back ≡ drop (line - 1) lines)
window-slice line limit lines first some_lines fits = (
  take limit (drop (line - 1) lines),
  drop limit (drop (line - 1) lines),
  window_lem line limit lines first some_lines fits,
  window_rest (line + limit) lines (omega (arith, first))
      ∙ ap some (ap (λ k. drop k lines) (omega (arith, first)) ∙ drop-drop (line - 1) limit lines),
  length-take limit (drop (line - 1) lines),
  take-drop limit (drop (line - 1) lines),
)

-- A window whose end, counted from its first line or, for a line behind the file, from the end of the
-- file, does not fit in an `int` makes the slice panic; the limit and the number of lines are ints.
pub window-window_end :
    (line limit : ℕ) (lines : List String)
    → 0 < line
    → limit < 2 ^ 63
    → length lines < 2 ^ 63
    → 2 ^ 63 ≤ line - 1 + limit
    → 2 ^ 63 ≤ length lines + limit
    → window (some line) (some limit) lines ≡ none
window-window_end line limit lines first limit_int lines_int over over_n =
    let n = length lines in
    let some_lines : 0 < limit = omega (arith, lines_int, over_n) in
    elim (window_start_lem line n first) [
      | inl (s, within) ↦
          window_def (some line) (some limit) lines (line - 1) s
          ∙ (ap (λ end. slice (line - 1) end lines)
                (window_end_over (line - 1) limit n some_lines over
                  (omega (arith, within, limit_int, lines_int)))
              ∙ slice-neg (line - 1) _ lines)
      | inr (s, _) ↦
          window_def (some line) (some limit) lines n s
          ∙ (ap (λ end. slice n end lines)
                (window_end_over n limit n some_lines over_n (omega (arith, limit_int, lines_int)))
              ∙ slice-neg n _ lines)
    ]
