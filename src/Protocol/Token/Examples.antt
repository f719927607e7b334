-- ===== src/Protocol/Token/Examples.antt =====
-- The allocator's theorems at concrete calls.
use framewalk.Prelude.{◌≡◌, ◌+◌, ◌%◌}
use framewalk.Protocol.Token.Laws.{nth_token, count, nth_token_lem}

nth_token_lem_example : nth_token 3 ≡ 3 % count + 1
nth_token_lem_example = nth_token_lem 3
