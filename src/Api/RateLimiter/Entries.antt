-- ===== src/Api/RateLimiter/Entries.antt =====
-- The windows of the in-memory backend as entries of Redis.
use security_review_ai.Prelude.{
  ℕ, suc, ◌+◌, ◌-◌, ◌*◌, ◌≤◌, ◌≡◌, refl, String, str_eq, eq_iff, true, false, Option, none, some,
  [], ◌∷◌, arith, ltb, leb, ◌==◌, if◌then◌else◌, Bool-cases, inl, inr,
}
use security_review_ai.Api.RateLimiter.{Window, Windows, lookup, insert, next_window, per_second}
use security_review_ai.Api.RateLimiter.Redis.{Entry, incremented, is_live}

abbrev pub count_of : Option Entry → ℕ
count_of none = 0
count_of (some (n, e)) = n

pub lookup-insert :
    (k j : String) (w : Window) (t : Windows)
    → lookup j (insert k w t) ≡ (if str_eq k j then some w else lookup j t)
unfolding lookup insert
lookup-insert k j w [] = refl
lookup-insert k j w ((i, v) ∷ t) = elim (Bool-cases (str_eq i k)) [
  | inl e ↦ rw (e, if◌then◌else◌) (rw ((eq_iff i k).0 e) (ground arith))
  | inr e ↦
      rw (e, if◌then◌else◌)
        (ground (arith, lookup-insert k j w t, eq_iff i j, eq_iff k j, eq_iff i k))
]

-- a window as Redis stores it
abbrev pub entry_of : ℕ → Option Window → Option Entry
entry_of seconds none = none
entry_of seconds (some w) = some (w.count, some (w.window_start + seconds * per_second))

-- what INCR and then EXPIRE on a first attempt leave
abbrev pub left_by : ℕ → ℕ → Option Entry → Entry
left_by seconds now o =
    let r = incremented now o in if r.0 == 1 then (r.0, some (now + seconds * per_second)) else r

pub left_by-count :
    (seconds now : ℕ) (o : Option Entry) → (left_by seconds now o).0 ≡ (incremented now o).0
left_by-count seconds now o = elim (Bool-cases ((incremented now o).0 == 1)) [
  | inl e ↦ rw (e, if◌then◌else◌) refl
  | inr e ↦ rw (e, if◌then◌else◌) refl
]

-- counts start from 1
abbrev pub IsCounted : Option Window → Type 0
IsCounted none = Unit
IsCounted (some w) = 1 ≤ w.count

over :
    (start now width : ℕ)
    → 1 ≤ width
    → leb width (now - start) ≡ true
    → ltb now (start + width) ≡ false
over start now width pos h = ground arith

running :
    (start now width : ℕ)
    → 1 ≤ width
    → leb width (now - start) ≡ false
    → ltb now (start + width) ≡ true
running start now width pos h = ground arith

not_first : (n : ℕ) → 1 ≤ n → (suc n == 1) ≡ false
not_first n h = ground arith

module _ (seconds : ℕ) (pos : 1 ≤ seconds) where
  pub left_by-next_window :
      (now : ℕ) (o : Option Window)
      → IsCounted o
      → some (left_by seconds now (entry_of seconds o))
        ≡ entry_of seconds (some (next_window now seconds o))
  left_by-next_window now none h = refl
  left_by-next_window now (some v) h =
      elim (Bool-cases (leb (seconds * per_second) (now - v.window_start))) [
        | inl e ↦
            rw (e, over v.window_start now (seconds * per_second) (omega arith) e, if◌then◌else◌)
              refl
        | inr e ↦
            rw (e, running v.window_start now (seconds * per_second) (omega arith) e, if◌then◌else◌)
              (rw (not_first v.count h, if◌then◌else◌) refl)
      ]

  pub next_window-IsCounted : (now : ℕ) (o : Option Window) → 1 ≤ (next_window now seconds o).count
  next_window-IsCounted now none = omega arith
  next_window-IsCounted now (some v) =
      elim (Bool-cases (leb (seconds * per_second) (now - v.window_start))) [
        | inl e ↦ rw (e, if◌then◌else◌) (omega arith)
        | inr e ↦ rw (e, if◌then◌else◌) (omega arith)
      ]

pub incremented-live : (now : ℕ) (o : Option Entry) → is_live now (some (incremented now o)) ≡ true
incremented-live now none = refl
incremented-live now (some (n, none)) = refl
incremented-live now (some (n, some expiry)) = elim (Bool-cases (ltb now expiry)) [
  | inl e ↦ rw (e, if◌then◌else◌) e
  | inr e ↦ rw (e, if◌then◌else◌) refl
]
