-- ===== src/Protocol/Connection/Answer.antt =====
-- A command and the line that answers it.
use framewalk.Prelude.{
  ◌^◌, ◌<◌, ◌≡◌, refl, ap, ◌∙◌, none, some, [], ◌∷◌, ◌++◌, Bytes, bytes, nat_key, get, remove,
  eqb_refl,
}
use framewalk.Wire.Framer.{line}
use framewalk.Codec.Ast.{Token, ResultClass, ResultRecord, no_results}
use framewalk.Codec.Command.{MiCommand}
use framewalk.Codec.Encode.{write_u64}
use framewalk.Codec.Record.Tokens.{done_line}
use framewalk.Protocol.Event.{Event, CommandOutcome}
use framewalk.Protocol.Connection.{
  Connection, enqueue, submit, outcome_of, complete, classify_record, parsed_result, parsed_frame,
  classify_frame,
}
use framewalk.Protocol.Connection.Events.{class-Silent}
use framewalk.Protocol.Connection.Correlation.{complete-untracks}

abbrev done_answer : Token → ResultRecord
done_answer token = record { token = some token; class = ResultClass.done; results = no_results }

-- The line `<token>^done`.
abbrev pub done_text : Token → Bytes
done_text token = write_u64 token ++ bytes "^done"

classify-done :
    (token : Token) (c : Connection)
    → token < 2 ^ 64
    → classify_frame (parsed_frame (line (done_text token))) c
      ≡ complete token (done_answer token) c
unfolding classify_frame classify_record parsed_frame parsed_result
classify-done token c h =
    ap (λ r. classify_frame (parsed_result (done_text token) r) c) (done_line token h)

events-complete :
    (token : Token) (c : Connection)
    → (complete token (done_answer token) c).events
      ≡ c.events ++ Event.command_completed token (CommandOutcome.done no_results) ∷ []
unfolding complete outcome_of
events-complete token c =
    ap (λ evs. evs ++ Event.command_completed token (CommandOutcome.done no_results) ∷ [])
      (class-Silent ResultClass.done (get token c.pending) no_results
        (record c { pending = remove token c.pending }))

events-submit : (c : Connection) (cmd : MiCommand) → (submit c cmd).1.events ≡ c.events
unfolding submit enqueue
events-submit c cmd = refl

pub answer-completes :
    (c : Connection) (cmd : MiCommand)
    → (submit c cmd).0 < 2 ^ 64
    → let (token, d) = submit c cmd in
      let e = classify_frame (parsed_frame (line (done_text token))) d in
      (e.events ≡ c.events ++ Event.command_completed token (CommandOutcome.done no_results) ∷ [])
      × (get token e.pending ≡ none)
answer-completes c cmd h =
    let token = (submit c cmd).0 in
    let d = (submit c cmd).1 in
    let step = classify-done token d h in
    (
      ap (λ e. e.events) step
          ∙ events-complete token d
          ∙ ap (λ evs. evs ++ Event.command_completed token (CommandOutcome.done no_results) ∷ [])
              (events-submit c cmd),
      ap (λ e. get token e.pending) step
          ∙ complete-untracks token (done_answer token) d token
          ∙ rw (eqb_refl token),
    )
