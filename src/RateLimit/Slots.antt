-- ===== src/RateLimit/Slots.antt =====
-- How many slots the rate limiter gives away in a span of time.
use mikrus_mcp.RateLimit.{RateLimiter, interval, acquire, accepted}
use mikrus_mcp.Prelude.{
  refl, arith, ℕ, ltb, ◌-◌, ◌+◌, ◌*◌, ◌≤◌, ◌<◌, All, List, [], ◌∷◌, true, false, ◌≡◌, inl, inr,
  Bool-cases,
}

-- A call before the next slot is refused and changes nothing.
acquire-refused :
    (s : RateLimiter) (now : ℕ) (later : List ℕ)
    → ltb 0 (s.next_slot - now) ≡ true
    → accepted s (now ∷ later) ≡ accepted s later
unfolding acquire
acquire-refused s now later h = rw h (omega arith)

acquire-accepted :
    (s : RateLimiter) (now : ℕ) (later : List ℕ)
    → ltb 0 (s.next_slot - now) ≡ false
    → accepted s (now ∷ later) ≡ 1 + accepted (record s { next_slot = now + interval }) later
unfolding acquire
acquire-accepted s now later h = rw h refl

late_enough : (s : RateLimiter) (t : ℕ) → ltb 0 (s.next_slot - t) ≡ false → s.next_slot ≤ t
late_enough s t h = ground arith

-- Before the end of the k-th interval behind the next slot, k calls return at most.
accepted_behind :
    (bound k : ℕ) (s : RateLimiter) (ts : List ℕ)
    → All (λ t. t < bound) ts
    → bound ≤ s.next_slot + k * interval
    → accepted s ts ≤ k
accepted_behind bound k s [] h b = omega arith
accepted_behind bound k s (t ∷ ts) h b = elim (Bool-cases (ltb 0 (s.next_slot - t))) [
  | inl early ↦ rw (acquire-refused s t ts early) (accepted_behind bound k s ts h.1 b)
  | inr late ↦
      let ready : s.next_slot ≤ t = late_enough s t late in
      let before : t < bound = h.0 in
      let rest =
        accepted_behind bound (k - 1) (record s { next_slot = t + interval }) ts h.1
          (omega arith) in
      rw (acquire-accepted s t ts late) (omega arith)
]

-- Of the calls to one limiter whose clock readings lie within k intervals, k return at most,
-- whatever came before them and in whatever order the readings are.
pub accepted-IsBounded :
    (from k : ℕ) (s : RateLimiter) (ts : List ℕ)
    → All (λ t. from ≤ t) ts
    → All (λ t. t < from + k * interval) ts
    → accepted s ts ≤ k
accepted-IsBounded from k s [] f h = omega arith
accepted-IsBounded from k s (t ∷ ts) f h = elim (Bool-cases (ltb 0 (s.next_slot - t))) [
  | inl early ↦ rw (acquire-refused s t ts early) (accepted-IsBounded from k s ts f.1 h.1)
  | inr late ↦
      let start : from ≤ t = f.0 in
      let before : t < from + k * interval = h.0 in
      let rest =
        accepted_behind (from + k * interval) (k - 1) (record s { next_slot = t + interval }) ts h.1
          (omega arith) in
      rw (acquire-accepted s t ts late) (omega arith)
]
