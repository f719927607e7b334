-- ===== src/Protocol/Token/Laws.antt =====
-- The tokens that successive calls of `allocate` hand out.
use framewalk.Prelude.{
  ℕ, zero, suc, ◌+◌, ◌-◌, ◌%◌, ◌^◌, ◌≤◌, ◌<◌, ◌≡◌, ◌≢◌, refl, ltb, if◌then◌else◌, arith,
}
use framewalk.Codec.Ast.{Token}
use framewalk.Protocol.Token.{TokenAllocator, default, allocate}

-- The allocator after `k` calls.
unfoldable pub after : ℕ → TokenAllocator
unfolding allocate
after zero = default
after (suc k) = (allocate (after k)).1

-- The token of call `k`, counted from 0.
abbrev pub nth_token : ℕ → Token
nth_token k = (allocate (after k)).0

-- How many tokens there are: every u64 but 0.
abbrev pub count : ℕ
count = 2 ^ 64 - 1

suc_mod :
    (k : ℕ)
    → (if ltb (k % count + 1 + 1) (2 ^ 64) then k % count + 1 + 1 else 1) ≡ suc k % count + 1
suc_mod k = ground arith

next-after : (k : ℕ) → (after k).next ≡ k % count + 1
unfolding after allocate
next-after zero = refl
next-after (suc k) = rw (next-after k) (suc_mod k)

-- Call k of the allocator, counted from 0, returns k mod (2^64 - 1) + 1.
pub nth_token_lem : (k : ℕ) → nth_token k ≡ k % count + 1
unfolding allocate
nth_token_lem k = next-after k

-- No token is 0, each fits a u64, and two calls of the allocator fewer than 2^64 - 1 apart never
-- return the same token.
pub nth_token_fresh :
    (i j : ℕ)
    → i < j
    → j < i + count
    → (1 ≤ nth_token i) × (nth_token i < 2 ^ 64) × (nth_token i ≢ nth_token j)
nth_token_fresh i j h k =
    let a = nth_token_lem i in
    let b = nth_token_lem j in (omega (arith, a), omega (arith, a), λ e. omega (arith, a, b, e))
