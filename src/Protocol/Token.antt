-- ===== src/Protocol/Token.antt =====
-- crates/framewalk-mi-protocol/src/token.rs: the allocator of command tokens.
mod Examples
pub mod Laws
use framewalk.Prelude.{ℕ, ◌+◌, ◌^◌, ltb, if◌then◌else◌}
use framewalk.Codec.Ast.{Token}

pub record TokenAllocator : Type 0 where
  pub next : ℕ

abbrev pub default : TokenAllocator
default = record { next = 1 }

-- `checked_add(1).unwrap_or(1)` over u64.
abbrev next_token : ℕ → ℕ
next_token n = if ltb (n + 1) (2 ^ 64) then n + 1 else 1

unfoldable pub allocate : TokenAllocator → Token × TokenAllocator
allocate t = (t.next, record { next = next_token t.next })
