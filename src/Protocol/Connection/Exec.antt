-- ===== src/Protocol/Connection/Exec.antt =====
-- What a `*stopped` and a `*running` record do to the target, the threads and the frames.
use framewalk.Prelude.{
  ◌≡◌, refl, ap, ◌∙◌, Bool, true, false, not, ◌||◌, Option, none, some, if◌then◌else◌, bytes, beq,
  beq_iff, bytes_key, get, insert, get-insert, get-remove, get-map_values, Bool-cases, inl, inr,
}
use framewalk.Codec.Ast.{Token, AsyncRecord, Results}
use framewalk.Protocol.View.{get_str, get_tuple}
use framewalk.Protocol.State.Threads
use framewalk.Protocol.State.Threads.{
  ThreadId, ThreadInfo, ThreadState, ThreadRegistry, is_all, in_state, or_fresh, on_state,
}
use framewalk.Protocol.State.Frames.{FrameRegistry, current, invalidate, clear, on_stopped_frame}
use framewalk.Protocol.State.Target
use framewalk.Protocol.State.Target.{TargetState, StoppedReason, is_exited, is_stopped}
use framewalk.Protocol.Connection.{
  Connection, frames_on_running, frame_on_stopped, target_on_stopped, is_exit_reason,
  on_exec_running, on_exec_stopped, classify_exec,
}

abbrev pub stopped_record : Option Token → Results → AsyncRecord
stopped_record token rs = record { token = token; class = bytes "stopped"; results = rs }

abbrev pub running_record : Option Token → Results → AsyncRecord
running_record token rs = record { token = token; class = bytes "running"; results = rs }

abbrev pub thread_of : Results → Option ThreadId
thread_of rs = get_str rs (bytes "thread-id")

abbrev pub exits : Results → Bool
exits rs = is_exit_reason (Target.from_results rs)

stopped_lem :
    (token : Option Token) (rs : Results) (c : Connection)
    → classify_exec (stopped_record token rs) c ≡ on_exec_stopped (stopped_record token rs) c
unfolding classify_exec beq
stopped_lem token rs c = refl

running_lem :
    (token : Option Token) (rs : Results) (c : Connection)
    → classify_exec (running_record token rs) c ≡ on_exec_running (running_record token rs) c
unfolding classify_exec beq
running_lem token rs c = refl

target_cases :
    (thread : Option ThreadId) (reason : Option StoppedReason)
    → (is_exited (target_on_stopped thread reason) ≡ is_exit_reason reason)
      × (is_stopped (target_on_stopped thread reason) ≡ not (is_exit_reason reason))
unfolding is_exited is_stopped target_on_stopped is_exit_reason
target_cases thread (some StoppedReason.exited_normally) = (refl, refl)
target_cases thread (some (StoppedReason.exited code)) = (refl, refl)
target_cases thread (some (StoppedReason.exited_signalled signal)) = (refl, refl)
target_cases thread none = (refl, refl)
target_cases thread (some _) = (refl, refl)

-- A *stopped record leaves the target exited when its reason is one of the three with which the
-- process ends, and stopped otherwise, whatever the state before.
pub stopped-target :
    (token : Option Token) (rs : Results) (c : Connection)
    → (is_exited (classify_exec (stopped_record token rs) c).target ≡ exits rs)
      × (is_stopped (classify_exec (stopped_record token rs) c).target ≡ not (exits rs))
unfolding on_exec_stopped
stopped-target token rs c =
    let cases = target_cases (thread_of rs) (Target.from_results rs) in
    (
      ap (λ d. is_exited d.target) (stopped_lem token rs c) ∙ cases.0,
      ap (λ d. is_stopped d.target) (stopped_lem token rs c) ∙ cases.1,
    )

-- Whether a record about a thread, or about all of them, covers the thread `t`.
abbrev pub names : Option ThreadId → ThreadId → Bool
names none t = false
names (some tid) t = beq tid t

abbrev pub covers : Option ThreadId → ThreadId → Bool
covers none t = true
covers (some tid) t = is_all tid || beq tid t

other_thread :
    (thread : Option ThreadId) (rs : Results) (m : FrameRegistry) (t : ThreadId)
    → names thread t ≡ false
    → current (frame_on_stopped thread rs m) t ≡ current m t
unfolding current on_stopped_frame
other_thread none rs m t h = refl
other_thread (some tid) rs m t h = of (get_tuple rs (bytes "frame"))
  where
    of :
        (o : Option Results)
        → get t (elim o as (λ _. FrameRegistry) [
          | none ↦ m
          | some frame ↦ insert tid (framewalk.Protocol.State.Frames.from_results frame) m
        ])
          ≡ get t m
    of none = refl
    of (some frame) = get-insert t tid _ m ∙ rw h

kept_frame :
    (b : Bool) (m : FrameRegistry) (t : ThreadId)
    → current (if b then clear m else m) t ≡ (if b then none else current m t)
unfolding current get
kept_frame true m t = refl
kept_frame false m t = refl

-- A *stopped record that does not name a thread forgets the frame of that thread when the
-- process has ended, and keeps it otherwise.
pub stopped-frames :
    (token : Option Token) (rs : Results) (c : Connection) (t : ThreadId)
    → names (thread_of rs) t ≡ false
    → current (classify_exec (stopped_record token rs) c).frames t
      ≡ (if exits rs then none else current c.frames t)
unfolding on_exec_stopped
stopped-frames token rs c t h =
    ap (λ d. current d.frames t) (stopped_lem token rs c)
    ∙ other_thread (thread_of rs) rs _ t h
    ∙ kept_frame (exits rs) c.frames t

running_frame :
    (thread : Option ThreadId) (m : FrameRegistry) (t : ThreadId)
    → current (frames_on_running thread m) t ≡ (if covers thread t then none else current m t)
unfolding current invalidate get
running_frame none m t = refl
running_frame (some tid) m t = elim (Bool-cases (is_all tid)) [
  | inl every ↦ rw every
  | inr one ↦ rw one (get-remove t tid m)
]

-- A *running record forgets the frames of exactly the threads that it covers: all of them
-- without a thread id or with `all`, else the one that it names.
pub running-frames :
    (token : Option Token) (rs : Results) (c : Connection) (t : ThreadId)
    → current (classify_exec (running_record token rs) c).frames t
      ≡ (if covers (thread_of rs) t then none else current c.frames t)
unfolding on_exec_running
running-frames token rs c t =
    ap (λ d. current d.frames t) (running_lem token rs c) ∙ running_frame (thread_of rs) c.frames t

known_thread :
    (st : ThreadState) (m : ThreadRegistry) (thread : Option ThreadId) (t : ThreadId)
    (info : ThreadInfo)
    → get t m ≡ some info
    → get t (on_state st m thread) ≡ some (if covers thread t then in_state st info else info)
unfolding on_state
known_thread st m none t info h = get-map_values t (in_state st) m ∙ rw h
known_thread st m (some tid) t info h = elim (Bool-cases (is_all tid)) [
  | inl every ↦ rw every (get-map_values t (in_state st) m ∙ rw h)
  | inr one ↦ rw one (get-insert t tid _ m ∙ named)
]
  where
    named :
        (if beq tid t then some (in_state st (or_fresh tid (get tid m))) else get t m)
        ≡ some (if beq tid t then in_state st info else info)
    named = elim (Bool-cases (beq tid t)) [
      | inl same ↦ rw same (
          ap (λ k. some (in_state st (or_fresh tid (get k m)))) ((beq_iff tid t).0 same)
          ∙ ap (λ o. some (in_state st (or_fresh tid o))) h)
      | inr other ↦ rw other h
    ]

-- A thread that is known before a *running or *stopped record is known after it, with the state
-- of the record if the record covers it, and as it was otherwise.
pub exec-threads :
    (token : Option Token) (rs : Results) (c : Connection) (t : ThreadId) (info : ThreadInfo)
    → get t c.threads ≡ some info
    → (get t (classify_exec (running_record token rs) c).threads
        ≡ some (if covers (thread_of rs) t then in_state Threads.running info else info))
      × (get t (classify_exec (stopped_record token rs) c).threads
          ≡ some (if covers (thread_of rs) t then in_state Threads.stopped info else info))
unfolding on_exec_running on_exec_stopped
exec-threads token rs c t info h = (
  ap (λ d. get t d.threads) (running_lem token rs c)
      ∙ known_thread Threads.running c.threads (thread_of rs) t info h,
  ap (λ d. get t d.threads) (stopped_lem token rs c)
      ∙ known_thread Threads.stopped c.threads (thread_of rs) t info h,
)
