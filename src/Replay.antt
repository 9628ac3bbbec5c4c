-- ===== src/Replay.antt =====
-- packages/replay/src/Replay.ts and the native object behind it, packages/replay/cpp/src/replay.cc:
-- the flags of both, the send thread, and the queue of its events on the way to the event loop.
mod Invariant
mod Threads
mod Sessions
mod Restart
mod Examples
use netkitty.Base.{
  ℕ, ◌+◌, ◌++◌, ◌≡◌, ◌⊎◌, Bool, true, false, not, ◌&&◌, Option, none, some, List, [],
}
use netkitty.Base.{◌∷◌, map, if◌then◌else◌}
use netkitty.Base.Text.{Text}

pub record ReplayFrame : Type 0 where
  pub frame : List ℕ
  pub seconds : Option ℕ
  pub nanoseconds : Option ℕ

pub record NativeFrame : Type 0 where
  pub frame : List ℕ
  pub seconds : ℕ
  pub nanoseconds : ℕ

or_zero : Option ℕ → ℕ
or_zero none = 0
or_zero (some n) = n

native_frame : ReplayFrame → NativeFrame
unfolding or_zero
native_frame f = record {
  frame = f.frame;
  seconds = or_zero f.seconds;
  nanoseconds = or_zero f.nanoseconds;
}

-- What the send thread posts. The text of an error goes to the listener in a ReplaySendError.
pub data Event : Type 0 where
  progress done : Event
  error : Text → Event

unfoldable pub is_terminal : Event → Bool
is_terminal progress = false
is_terminal done = true
is_terminal (error message) = true

-- `started` and `finished` are the fields of Replay.ts; `frames`, `running` (`running_`) and
-- `sending`, which holds while the send thread lives, those of replay.cc. Events wait in `queue`
-- and have reached the listeners in `emitted`.
pub record System : Type 0 where
  pub started : Bool
  pub finished : Bool
  pub frames : List NativeFrame
  pub running : Bool
  pub sending : Bool
  pub queue : List Event
  pub emitted : List Event

-- The constructors of both.
unfoldable pub new_replay : System
new_replay = record {
  started = false;
  finished = false;
  frames = [];
  running = false;
  sending = false;
  queue = [];
  emitted = [];
}

unfoldable pub add_frames : List ReplayFrame → System → System
unfolding native_frame
add_frames fs s = record s { frames = s.frames ++ map native_frame fs }

-- NetKittyReplay::Start
unfoldable pub native_start : System → System
native_start s = if s.running then s else record s { running = true; sending = true }

unfoldable pub start : System → System
unfolding native_start
start s = if s.started then s else native_start (record s { started = true; finished = false })

-- The end of `run`, which posts one last event.
unfoldable pub end_thread : Event → System → System
end_thread e s = if s.sending then record s { sending = false; queue = s.queue ++ (e ∷ []) } else s

-- NetKittyReplay::stopThread waits for the end of the thread, which may come with any last event.
unfoldable pub native_stop : Event → System → System
unfolding end_thread
native_stop e s = if s.running then record (end_thread e s) { running = false } else s

unfoldable pub stop : Event → System → System
unfolding native_stop
stop e s = if s.started then record (native_stop e s) { started = false } else s

-- The closure that `start` installs as the native object's `emit`.
unfoldable pub on_emit : Event → System → System
unfolding is_terminal
on_emit e s = record s {
  finished = if is_terminal e then true else s.finished;
  started = if is_terminal e then false else s.started;
  emitted = s.emitted ++ (e ∷ []);
}

-- `running`
unfoldable pub is_running : System → Bool
is_running s = s.started && not s.finished

-- What the send thread and the event loop do on their own: post, end, and deliver in order.
pub data Progresses : System → System → Type 0 where
  post :
      (s : System)
      → s.sending ≡ true
      → Progresses s (record s { queue = s.queue ++ (progress ∷ []) })
  ends :
      (s : System) (e : Event)
      → s.sending ≡ true
      → is_terminal e ≡ true
      → Progresses s (end_thread e s)
  delivers :
      (s : System) (e : Event) (rest : List Event)
      → s.queue ≡ e ∷ rest
      → Progresses s (on_emit e (record s { queue = rest }))

unfoldable pub terminals : List Event → ℕ
unfolding is_terminal
terminals [] = 0
terminals (e ∷ es) = (if is_terminal e then 1 else 0) + terminals es

-- The states of a client that starts a thread only when the last one has been stopped and its last
-- event has arrived. The number is that of the threads.
pub data Orderly : ℕ → System → Type 0 where
  here : Orderly 0 new_replay
  queued : {n : ℕ} {s : System} (fs : List ReplayFrame) → Orderly n s → Orderly n (add_frames fs s)
  began :
      {n : ℕ} {s : System}
      → Orderly n s
      → s.running ≡ false
      → terminals s.queue ≡ 0
      → Orderly (n + 1) (start s)
  again : {n : ℕ} {s : System} → Orderly n s → s.started ≡ true → Orderly n (start s)
  stopped :
      {n : ℕ} {s : System} (e : Event) → is_terminal e ≡ true → Orderly n s → Orderly n (stop e s)
  went : {n : ℕ} {s t : System} → Orderly n s → Progresses s t → Orderly n t

-- The states of any client: it adds frames, starts and stops whenever it likes. The number is that
-- of the threads; a start makes one unless Replay.ts or the native object counts as running.
pub data Reach : ℕ → System → Type 0 where
  fresh : Reach 0 new_replay
  added : {n : ℕ} {s : System} (fs : List ReplayFrame) → Reach n s → Reach n (add_frames fs s)
  launched :
      {n : ℕ} {s : System}
      → Reach n s
      → s.started ≡ false
      → s.running ≡ false
      → Reach (n + 1) (start s)
  ignored :
      {n : ℕ} {s : System} → Reach n s → (s.started ≡ true) ⊎ (s.running ≡ true) → Reach n (start s)
  halted : {n : ℕ} {s : System} (e : Event) → is_terminal e ≡ true → Reach n s → Reach n (stop e s)
  moved : {n : ℕ} {s t : System} → Reach n s → Progresses s t → Reach n t

-- The steps of the thread and the loop alone.
pub data Leads (s : System) : System → Type 0 where
  stays : Leads s s
  moves : {t u : System} → Leads s t → Progresses t u → Leads s u
