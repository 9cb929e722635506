-- ===== src/Runtime/Window.antt =====
-- The replay window of a runtime: what `append` and `prune` of realtime-runtime.service.ts keep.
use elder_interview_ai.Prelude.{
  ℕ, zero, suc, ◌+◌, ◌-◌, ◌≤◌, ◌≡◌, refl, inl, inr, Bool-cases, true, String, List, [], ◌∷◌, ◌++◌,
  arith, keep, length, All, All-append, All-keep,
}
use elder_interview_ai.Prelude.Int.{pos}
use elder_interview_ai.Prelude.Sort.{IsSorted}
use elder_interview_ai.Realtime.Messages.{ServerBody}
use elder_interview_ai.Runtime.Session.{
  StoredEvent, SessionRuntime, max_events, drop, take_last, in_window, prune, envelope_of, pushed,
  append_as,
}

-- The events have the numbers from the first up to the last, which is left out.
abbrev pub Numbered : ℕ → List StoredEvent → ℕ → Type 0
Numbered n [] end = n ≡ end
Numbered n (e ∷ es) end = (e.envelope.server_sequence ≡ pos n) × Numbered (suc n) es end

abbrev pub created : StoredEvent → ℕ
created e = e.created_at

-- The event belongs to this runtime, and is not of the future.
pub record IsOwn (clock : ℕ) (session stream : String) (e : StoredEvent) : Type 0 where
  pub past : e.created_at ≤ clock
  pub own_session : e.envelope.session_id ≡ session
  pub own_stream : e.envelope.event_stream_id ≡ stream

-- A run of numbered events up to the next number, in the order of their times.
pub record Log (clock : ℕ) (events : List StoredEvent) (next : ℕ) (session stream : String)
    : Type 0 where
  pub first : ℕ
  pub numbered : Numbered first events next
  pub ordered : IsSorted created events
  pub own : All (IsOwn clock session stream) events

abbrev pub LogOf : ℕ → SessionRuntime → Type 0
LogOf clock r = Log clock r.events r.next_server_sequence r.session_id r.event_stream_id

-- The log of a runtime, and no more of it than is kept.
abbrev pub IsWindow : ℕ → SessionRuntime → Type 0
IsWindow clock r = LogOf clock r × (length r.events ≤ max_events)

-- A part of the window that ends where it ends.
record IsSuffix (n end : ℕ) (es fs : List StoredEvent) : Type 0 where
  start : ℕ
  later : n ≤ start
  rest : Numbered start fs end
  sorted : IsSorted created fs

keep-all :
    (now : ℕ) (e : StoredEvent) (es : List StoredEvent)
    → IsSorted created (e ∷ es)
    → in_window now e ≡ true
    → keep (in_window now) es ≡ es
keep-all now e [] s h = refl
keep-all now e (f ∷ fs) s h = ground (arith, keep-all now f fs s.1)

Numbered-keep :
    (now n end : ℕ) (es : List StoredEvent)
    → Numbered n es end
    → IsSorted created es
    → IsSuffix n end es (keep (in_window now) es)
Numbered-keep now n end [] h s = record { start = n; later = omega arith; rest = h; sorted = tt }
Numbered-keep now n end (e ∷ es) h s = elim (Bool-cases (in_window now e)) [
  | inl t ↦
      rw (t, keep-all now e es s t)
        (record { start = n; later = omega arith; rest = h; sorted = s })
  | inr f ↦
      let below = Numbered-keep now (suc n) end es h.1 s.1 in
      rw f (record {
        start = below.start;
        later = omega (arith, below.later);
        rest = below.rest;
        sorted = below.sorted;
      })
]

Numbered-drop :
    (k n end : ℕ) (es : List StoredEvent)
    → Numbered n es end
    → IsSorted created es
    → IsSuffix n end es (drop k es)
unfolding drop
Numbered-drop zero n end es h s = record { start = n; later = omega arith; rest = h; sorted = s }
Numbered-drop (suc k) n end [] h s = record {
  start = n;
  later = omega arith;
  rest = h;
  sorted = tt;
}
Numbered-drop (suc k) n end (e ∷ es) h s =
    let below = Numbered-drop k (suc n) end es h.1 s.1 in
    record {
      start = below.start;
      later = omega (arith, below.later);
      rest = below.rest;
      sorted = below.sorted;
    }

All-drop : {A : Type 0} (P : A → Type 0) (k : ℕ) (xs : List A) → All P xs → All P (drop k xs)
unfolding drop
All-drop P zero xs h = h
All-drop P (suc k) [] h = tt
All-drop P (suc k) (x ∷ xs) h = All-drop P k xs h.1

length-drop : {A : Type 0} (k : ℕ) (xs : List A) → length (drop k xs) ≡ length xs - k
unfolding drop
length-drop zero xs = omega arith
length-drop (suc k) [] = omega arith
length-drop (suc k) (x ∷ xs) = omega (arith, length-drop k xs)

Numbered-append :
    (n end : ℕ) (es : List StoredEvent) (e : StoredEvent)
    → Numbered n es end
    → e.envelope.server_sequence ≡ pos end
    → Numbered n (es ++ e ∷ []) (end + 1)
Numbered-append n end [] e h p = (rw h p, omega (arith, h))
Numbered-append n end (d ∷ es) e h p = (h.0, Numbered-append (suc n) end es e h.1 p)

module _ (clock : ℕ) (session stream : String) where
  IsSorted-append :
      (es : List StoredEvent) (e : StoredEvent)
      → IsSorted created es
      → All (IsOwn clock session stream) es
      → clock ≤ e.created_at
      → IsSorted created (es ++ e ∷ [])
  IsSorted-append [] e s o c = (tt, tt)
  IsSorted-append (d ∷ []) e s o c = (omega (arith, o.0.past), (tt, tt))
  IsSorted-append (d ∷ f ∷ es) e s o c = (s.0, IsSorted-append (f ∷ es) e s.1 o.1 c)

  -- What belongs to the runtime at one time belongs to it at any later time.
  pub IsOwn-later :
      (now : ℕ) (es : List StoredEvent)
      → clock ≤ now
      → All (IsOwn clock session stream) es
      → All (IsOwn now session stream) es
  IsOwn-later now [] h o = tt
  IsOwn-later now (e ∷ es) h o = (
    record {
      past = omega (arith, o.0.past);
      own_session = o.0.own_session;
      own_stream = o.0.own_stream;
    },
    IsOwn-later now es h o.1,
  )

pub prune-IsWindow :
    (clock now : ℕ) (r : SessionRuntime) → LogOf clock r → IsWindow clock (prune now r)
unfolding prune take_last
prune-IsWindow clock now r w =
    let young : List StoredEvent = keep (in_window now) r.events in
    let kept = Numbered-keep now w.first r.next_server_sequence r.events w.numbered w.ordered in
    let cut =
      Numbered-drop (length young - max_events) kept.start r.next_server_sequence young kept.rest
        kept.sorted in
    (
      record {
        first = cut.start;
        numbered = cut.rest;
        ordered = cut.sorted;
        own = All-drop _ _ _ (All-keep _ _ _ w.own);
      },
      omega (arith, length-drop (length young - max_events) young),
    )

pub IsWindow-later :
    (clock now : ℕ) (r : SessionRuntime) → clock ≤ now → IsWindow clock r → IsWindow now r
IsWindow-later clock now r h (w, bounded) = (
  record {
    first = w.first;
    numbered = w.numbered;
    ordered = w.ordered;
    own = IsOwn-later clock r.session_id r.event_stream_id now r.events h w.own;
  },
  bounded,
)

-- The window keeps its form when an event is added at its end.
pub append_as-IsWindow :
    (clock now : ℕ) (version : String) (body : ServerBody) (r : SessionRuntime)
    → clock ≤ now
    → IsWindow clock r
    → IsWindow now (append_as now version body r).0
unfolding append_as
append_as-IsWindow clock now version body r h (w, bounded) =
    let e : StoredEvent = record { created_at = now; envelope = envelope_of version body r } in
    prune-IsWindow now now (pushed now version body r) (record {
      first = w.first;
      numbered = Numbered-append w.first r.next_server_sequence r.events e w.numbered refl;
      ordered = IsSorted-append clock r.session_id r.event_stream_id r.events e w.ordered w.own h;
      own =
          All-append _ r.events (e ∷ [])
            (IsOwn-later clock r.session_id r.event_stream_id now r.events h w.own)
            (record { past = omega arith; own_session = refl; own_stream = refl }, tt);
    })
