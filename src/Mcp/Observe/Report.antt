-- ===== src/Mcp/Observe/Report.antt =====
-- crates/framewalk-mcp/src/server_helpers.rs: what a client reads back from the summaries of events.
-- The name of a stop's reason and its exit code are left out.
use framewalk.Prelude.{◌≡◌, refl, Option, none, some, List, [], ◌∷◌, Bytes}
use framewalk.Codec.Ast.{Results, no_results}
use framewalk.Codec.Error.{CodecError}
use framewalk.Protocol.Event.{Event}
use framewalk.Protocol.State.Frames.{Frame}
use framewalk.Protocol.State.Threads.{ThreadId}
use framewalk.Transport.Journal.{EventSeq}
use framewalk.Mcp.Observe.{Kind, ObservedEvent, summarize_event, summarize_all, non_empty_results}

-- What a client is to learn of an event besides its number.
pub data Report : Type 0 where
  ran : Option ThreadId → Report
  stopped_at : Option ThreadId → Results → Option Frame → Report
  notified reports_status : Option Bytes → Option Results → Report
  wrote_console wrote_target wrote_log : Option Bytes → Report
  failed_parse : Option CodecError → Report

-- The reports due for a history: one for each event, but none for the completion of a command,
-- the end of a group and an unknown record.
abbrev pub due : List (EventSeq × Event) → List (EventSeq × Report)
due [] = []
due ((seq, Event.command_completed handle outcome) ∷ evs) = due evs
due ((seq, Event.group_closed) ∷ evs) = due evs
due ((seq, Event.unknown unread) ∷ evs) = due evs
due ((seq, Event.running thread) ∷ evs) = (seq, ran thread) ∷ due evs
due ((seq, Event.stopped ev) ∷ evs) = (seq, stopped_at ev.thread ev.raw ev.frame) ∷ due evs
due ((seq, Event.notify ev) ∷ evs) = (seq, notified (some ev.class) (some ev.results)) ∷ due evs
due ((seq, Event.status ev) ∷ evs) =
    (seq, reports_status (some ev.class) (some ev.results)) ∷ due evs
due ((seq, Event.console text) ∷ evs) = (seq, wrote_console (some text)) ∷ due evs
due ((seq, Event.target_output text) ∷ evs) = (seq, wrote_target (some text)) ∷ due evs
due ((seq, Event.log text) ∷ evs) = (seq, wrote_log (some text)) ∷ due evs
due ((seq, Event.parse_error err) ∷ evs) = (seq, failed_parse (some err.error)) ∷ due evs

abbrev or_empty : Option Results → Results
or_empty none = no_results
or_empty (some rs) = rs

abbrev by_kind : Kind → ObservedEvent → Report
by_kind Kind.running o = ran o.thread
by_kind Kind.stopped o = stopped_at o.thread (or_empty o.results) o.frame
by_kind Kind.notify o = notified o.class o.results
by_kind Kind.status o = reports_status o.class o.results
by_kind Kind.console o = wrote_console o.text
by_kind Kind.target_output o = wrote_target o.text
by_kind Kind.log o = wrote_log o.text
by_kind Kind.parse_error o = failed_parse o.failure

-- What a client reads in the summaries, by the kind of each.
abbrev pub read_back : List ObservedEvent → List (EventSeq × Report)
read_back [] = []
read_back (o ∷ os) = (o.seq, by_kind o.kind o) ∷ read_back os

or_empty-non_empty_results : (rs : Results) → or_empty (non_empty_results rs) ≡ rs
or_empty-non_empty_results no_results = refl
or_empty-non_empty_results _ = refl

-- The summaries of a history tell a client each report that is due, and nothing else.
pub read_back-summarize_all :
    (evs : List (EventSeq × Event)) → read_back (summarize_all evs) ≡ due evs
unfolding summarize_all summarize_event
read_back-summarize_all [] = refl
read_back-summarize_all ((seq, Event.command_completed handle outcome) ∷ evs) =
    read_back-summarize_all evs
read_back-summarize_all ((seq, Event.group_closed) ∷ evs) = read_back-summarize_all evs
read_back-summarize_all ((seq, Event.unknown unread) ∷ evs) = read_back-summarize_all evs
read_back-summarize_all ((seq, Event.stopped ev) ∷ evs) =
    rw (or_empty-non_empty_results ev.raw) (rw (read_back-summarize_all evs))
read_back-summarize_all ((seq, Event.running thread) ∷ evs) = rw (read_back-summarize_all evs)
read_back-summarize_all ((seq, Event.notify ev) ∷ evs) = rw (read_back-summarize_all evs)
read_back-summarize_all ((seq, Event.status ev) ∷ evs) = rw (read_back-summarize_all evs)
read_back-summarize_all ((seq, Event.console text) ∷ evs) = rw (read_back-summarize_all evs)
read_back-summarize_all ((seq, Event.target_output text) ∷ evs) = rw (read_back-summarize_all evs)
read_back-summarize_all ((seq, Event.log text) ∷ evs) = rw (read_back-summarize_all evs)
read_back-summarize_all ((seq, Event.parse_error err) ∷ evs) = rw (read_back-summarize_all evs)
