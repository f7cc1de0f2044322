-- ===== src/Tui/Log.antt =====
-- The audit log of the client keeps the most recent messages.
use elan.Common.{
  ℕ, zero, suc, ◌-◌, ◌≤◌, ◌<◌, ◌≡◌, refl, sym, ap, ◌∙◌, ◌++◌, [], ◌∷◌, List, Text, length, drop,
  length-append, length-drop, append_assoc, append-nil, arith, inl, inr, Bool-cases, ltb,
}
use elan.Tui.{App, capped, push_audit}

drop-append : (n : ℕ) (xs ys : List Text) → n ≤ length xs → drop n xs ++ ys ≡ drop n (xs ++ ys)
drop-append zero xs ys h = refl
drop-append (suc n) [] ys h = absurd (omega (arith, h))
drop-append (suc n) (x ∷ xs) ys h = drop-append n xs ys (omega (arith, h))

drop-drop : (n : ℕ) (xs : List Text) → drop 1 (drop n xs) ≡ drop (suc n) xs
drop-drop zero xs = refl
drop-drop (suc n) [] = refl
drop-drop (suc n) (x ∷ xs) = drop-drop n xs

-- The last 500 of a list.
abbrev pub recent : List Text → List Text
recent log = drop (length log - 500) log

capped-append :
    (log : List Text) (msg : Text) → capped (recent log ++ msg ∷ []) ≡ recent (log ++ msg ∷ [])
capped-append log msg =
    let d = length-drop (length log - 500) log in
    let a = length-append (recent log) (msg ∷ []) in
    let b = length-append log (msg ∷ []) in
    elim (Bool-cases (ltb 500 (length (recent log ++ msg ∷ [])))) [
      | inl full ↦
          let long : 500 ≤ length log = ground (arith, d, a) in
          let more : suc (length log - 500) ≡ length (log ++ msg ∷ []) - 500 =
            omega (arith, b, long) in
          rw full (
            ap (drop 1) (drop-append (length log - 500) log (msg ∷ []) (omega arith))
            ∙ drop-drop (length log - 500) (log ++ msg ∷ [])
            ∙ ap (λ n. drop n (log ++ msg ∷ [])) more)
      | inr short ↦
          let few : length log < 500 = ground (arith, d, a) in
          let none_left : length log - 500 ≡ 0 = omega (arith, few) in
          let none_left' : length (log ++ msg ∷ []) - 500 ≡ 0 = omega (arith, b, few) in
          rw short (
            ap (λ n. drop n log ++ msg ∷ []) none_left
            ∙ ap (λ n. drop n (log ++ msg ∷ [])) (sym none_left'))
    ]

unfoldable pub push_all : {E : Type 0} → List Text → App E → App E
push_all [] app = app
push_all (msg ∷ msgs) app = push_all msgs (push_audit msg app)

push_all_lem :
    {E : Type 0} (msgs log : List Text) (app : App E)
    → app.audit_log ≡ recent log
    → (push_all msgs app).audit_log ≡ recent (log ++ msgs)
unfolding push_all push_audit
push_all_lem [] log app h = rw append-nil h
push_all_lem (msg ∷ msgs) log app h =
    push_all_lem msgs (log ++ msg ∷ []) (push_audit msg app)
      (ap (λ l. capped (l ++ msg ∷ [])) h ∙ capped-append log msg)
    ∙ ap recent (append_assoc log (msg ∷ []) msgs)

-- Whatever messages arrive, a log of at most 500 lines becomes the last 500 of its lines and the new
-- messages, in the order of arrival.
pub push_all-recent :
    {E : Type 0} (msgs : List Text) (app : App E)
    → length app.audit_log ≤ 500
    → (push_all msgs app).audit_log ≡ recent (app.audit_log ++ msgs)
push_all-recent msgs app h =
    let whole : 0 ≡ length app.audit_log - 500 = omega (arith, h) in
    push_all_lem msgs app.audit_log app (ap (λ n. drop n app.audit_log) whole)
