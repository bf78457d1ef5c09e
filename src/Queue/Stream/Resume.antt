-- ===== src/Queue/Stream/Resume.antt =====
-- Where the stream goes on after it was interrupted: the id in the next request.
use Prim.Native.String
use affiliate_platform_api.Prelude.{
  true, ◌⊎◌, Bool-cases, List, Option, String, [], false, if◌then◌else◌, inl, inr, none, nonempty,
  refl, some, ℕ, ◌==◌, ◌≡◌, ◌∷◌, subst, sym, ap,
}
use affiliate_platform_api.Queue.Types.{QueueEventEnvelope}
use affiliate_platform_api.Queue.Stream.{
  Effect, Event, Options, Stream, body_ends, fetched, id_received, raw_message, remember_id,
  retry_received, run, sleep_ends, step, streaming,
}

-- The lines of a body that the parser hands on, and the end of a message with its data.
pub data Part : Type 0 where
  id_line : String → Part
  retry_line : ℕ → Part
  message_end : String → Option QueueEventEnvelope → Part

-- The parser reports each id as soon as its line is read, and a message at its end, with the id of its
-- last line of that kind; `current` is that id so far.
abbrev pub part_events : String → List Part → List (Event × ℕ)
part_events current [] = []
part_events current (id_line id ∷ ps) = (id_received id, 0) ∷ part_events id ps
part_events current (retry_line retry ∷ ps) = (retry_received retry, 0) ∷ part_events current ps
part_events current (message_end content parsed ∷ ps) =
    (raw_message current content parsed, 0) ∷ part_events "" ps

-- The last id that is not empty, of any line.
abbrev pub last_id : String → List Part → String
last_id id [] = id
last_id id (id_line new ∷ ps) = last_id (if new == "" then id else new) ps
last_id id (retry_line retry ∷ ps) = last_id id ps
last_id id (message_end content parsed ∷ ps) = last_id id ps

-- What the reading of a body leaves alone, and the id that it leaves.
pub record IsReading (s : Stream) (id : String) : Type 0 where
  pub phase : s.phase ≡ streaming
  pub going : s.aborted ≡ false
  pub remembered : s.last_event_id ≡ id
  pub failures : s.consecutive_failures ≡ 0

remember_id-IsReading :
    (new id : String) (s : Stream)
    → IsReading s id
    → IsReading (remember_id new s) (if new == "" then id else new)
remember_id-IsReading new id s r = elim (Bool-cases (new == "")) [
  | inl empty ↦ rw empty r
  | inr other ↦
      rw other
        (record { phase = r.phase; going = r.going; remembered = refl; failures = r.failures })
]

-- The id of the message that is read is the last one, if it is not empty.
abbrev IsCurrent : String → String → Type 0
IsCurrent current id = ((current == "") ≡ true) ⊎ (current ≡ id)

received-IsCurrent : (new id : String) → IsCurrent new (if new == "" then id else new)
received-IsCurrent new id = elim (Bool-cases (new == "")) [
  | inl empty ↦ inl empty
  | inr other ↦ inr (rw other refl)
]

message_id :
    (current id : String) → IsCurrent current id → (if current == "" then id else current) ≡ id
message_id current id (inl empty) = rw empty refl
message_id current id (inr same) = elim (Bool-cases (current == "")) [
  | inl empty ↦ rw empty refl
  | inr other ↦ rw other same
]

kept_id-IsReading :
    (current id : String) (s : Stream)
    → IsCurrent current id
    → IsReading s id
    → IsReading (remember_id current s) id
kept_id-IsReading current id s c r =
    subst (IsReading (remember_id current s)) (message_id current id c)
      (remember_id-IsReading current id s r)

message-IsReading :
    (o : Options) (current id content : String) (parsed : Option QueueEventEnvelope) (s : Stream)
    → IsCurrent current id
    → IsReading s id
    → IsReading (step o 0 streaming (raw_message current content parsed) s).0 id
unfolding step
message-IsReading o current id content none s c r = elim (Bool-cases (content == "")) [
  | inl empty ↦ rw empty r
  | inr other ↦ rw other (kept_id-IsReading current id s c r)
]
message-IsReading o current id content (some e) s c r = elim (Bool-cases (content == "")) [
  | inl empty ↦ rw empty r
  | inr other ↦ rw other (kept_id-IsReading current id s c r)
]

-- In a body that is read, a step is that of the streaming phase.
streaming_step :
    (o : Options) (e : Event) (id : String) (s : Stream)
    → s.phase ≡ streaming
    → IsReading (step o 0 streaming e s).0 id
    → IsReading (step o 0 s.phase e s).0 id
streaming_step o e id s p h = subst (λ ph. IsReading (step o 0 ph e s).0 id) (sym p) h

run-IsReading :
    (o : Options) (ps : List Part) (current id : String) (s : Stream)
    → IsCurrent current id
    → IsReading s id
    → IsReading (run o (part_events current ps) s).0 (last_id id ps)
unfolding run step
run-IsReading o [] current id s c r = r
run-IsReading o (id_line new ∷ ps) current id s c r =
    run-IsReading o ps new (if new == "" then id else new) (step o 0 s.phase (id_received new) s).0
      (received-IsCurrent new id)
      (streaming_step o (id_received new) (if new == "" then id else new) s r.phase
        (remember_id-IsReading new id s r))
run-IsReading o (retry_line retry ∷ ps) current id s c r =
    run-IsReading o ps current id (step o 0 s.phase (retry_received retry) s).0 c (
      streaming_step o (retry_received retry) id s r.phase (record {
        phase = r.phase;
        going = r.going;
        remembered = r.remembered;
        failures = r.failures;
      }))
run-IsReading o (message_end content parsed ∷ ps) current id s c r =
    run-IsReading o ps "" id (step o 0 s.phase (raw_message current content parsed) s).0 (inl refl)
      (streaming_step o (raw_message current content parsed) id s r.phase
        (message-IsReading o current id content parsed s c r))

-- The stream after its body has ended, and after the wait that follows.
abbrev pub interrupted : Options → ℕ → Stream → Stream
interrupted o jitter s = (step o jitter s.phase body_ends s).0

abbrev pub reopened : Options → ℕ → ℕ → Stream → List Effect
reopened o jitter next s =
    let s' : Stream = interrupted o jitter s in (step o next s'.phase sleep_ends s').1

reopened-header :
    (o : Options) (jitter next : ℕ) (s : Stream) (id : String)
    → IsReading s id
    → reopened o jitter next s
      ≡ fetched (record {
        authorization = String.◌++◌ "Bearer " o.token;
        workspace = o.workspace_id;
        last_event_id = nonempty (some id);
      })
        ∷ []
unfolding step
reopened-header o jitter next s id r = ap (reopened o jitter next) shape
  where
    shape : s ≡ record {
      phase = streaming;
      aborted = false;
      last_event_id = id;
      consecutive_failures = 0;
      server_retry_ms = s.server_retry_ms;
    }
    shape = λ i. record {
      phase = r.phase i;
      aborted = r.going i;
      last_event_id = r.remembered i;
      consecutive_failures = r.failures i;
      server_retry_ms = s.server_retry_ms;
    }

-- A body is read from the id on, without an abort: whatever ids, waiting times and messages arrive,
-- once the body has ended and the wait is over, the next request asks the server to go on from the
-- last id that was not empty, whether or not its message had data or came to its end, and sends no
-- id if there was none.
pub resume-last_id :
    (o : Options) (ps : List Part) (jitter next : ℕ) (s : Stream) (id : String)
    → IsReading s id
    → reopened o jitter next (run o (part_events "" ps) s).0
      ≡ fetched (record {
        authorization = String.◌++◌ "Bearer " o.token;
        workspace = o.workspace_id;
        last_event_id = nonempty (some (last_id id ps));
      })
        ∷ []
resume-last_id o ps jitter next s id r =
    reopened-header o jitter next (run o (part_events "" ps) s).0 (last_id id ps)
      (run-IsReading o ps "" id s (inl refl) r)
