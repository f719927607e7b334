-- ===== src/Protocol/Connection/Session/Answer.antt =====
-- A command and its answer, through the wire.
use framewalk.Prelude.{
  ℕ, ◌^◌, ◌<◌, ◌≡◌, refl, sym, ap, ◌∙◌, none, some, [], ◌∷◌, ◌++◌, append_assoc, arith, bytes,
  nat_key, get,
}
use framewalk.Wire.Framer.{line}
use framewalk.Wire.Framer.Stream.{frames, strip_return}
use framewalk.Wire.Framer.Single.{strip_return-last, frames-caret}
use framewalk.Codec.Ast.{Token, no_results}
use framewalk.Codec.Command.{MiCommand}
use framewalk.Codec.Encode.{write_u64}
use framewalk.Codec.Encode.Lines.{IsLine-append, token-IsLine}
use framewalk.Protocol.Token.{allocate}
use framewalk.Protocol.Token.Laws.{nth_token_lem}
use framewalk.Protocol.Event.{Event, CommandOutcome}
use framewalk.Protocol.Connection.{
  Connection, enqueue, submit, receive_bytes, classify_all, parsed_all,
}
use framewalk.Protocol.Connection.Receive.{waiting, state, classified, receive_bytes-Received}
use framewalk.Protocol.Connection.Answer.{done_text, answer-completes}
use framewalk.Protocol.Connection.Session.{Reaches, submitted}
use framewalk.Protocol.Connection.Session.Sound.{session-IsSound, new_token}

frames-done : (token : Token) → frames [] (done_text token ++ 10 ∷ []) ≡ line (done_text token) ∷ []
frames-done token =
    let digits = write_u64 token in
    frames-caret (done_text token) digits (bytes "done") refl
      (ap strip_return (sym (append_assoc digits (bytes "^don") (b'e' ∷ [])))
        ∙ strip_return-last (digits ++ bytes "^don") b'e' refl
        ∙ append_assoc digits (bytes "^don") (b'e' ∷ []))
      (IsLine-append digits (bytes "^done") (token-IsLine (some token)) refl)

token_bound : {k : ℕ} {c : Connection} (cmd : MiCommand) → Reaches k c → (submit c cmd).0 < 2 ^ 64
unfolding submit enqueue allocate
token_bound {k} {c} cmd r = omega (arith, new_token k c (session-IsSound r), nth_token_lem k)

-- After every session with no unfinished line waiting, when a command is submitted and GDB then
-- sends its token, ^done and a newline, the connection adds exactly the completion of that
-- command to its events, and the command is no longer pending.
pub answer-received :
    {k : ℕ} {c : Connection} (cmd : MiCommand)
    → Reaches k c
    → waiting c ≡ []
    → let (token, d) = submit c cmd in
      let e = receive_bytes d (done_text token ++ 10 ∷ []) in
      (e.events ≡ c.events ++ Event.command_completed token (CommandOutcome.done no_results) ∷ [])
      × (get token e.pending ≡ none)
unfolding submit enqueue classified classify_all parsed_all
answer-received {k} {c} cmd r w =
    let token = (submit c cmd).0 in
    let d = (submit c cmd).1 in
    let text = done_text token ++ 10 ∷ [] in
    let got = receive_bytes-Received d text (session-IsSound (submitted r cmd)).ready in
    let same =
      got.state_lem
      ∙ ap (λ s. state (classified d (s ++ text))) w
      ∙ ap (λ l. state (classify_all (parsed_all l) d)) (frames-done token) in
    let done = answer-completes c cmd (token_bound cmd r) in
    (ap (λ x. x.events) same ∙ done.0, ap (λ x. get token x.pending) same ∙ done.1)
