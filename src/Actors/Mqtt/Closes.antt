-- ===== src/Actors/Mqtt/Closes.antt =====
-- When the MQTT client stops.
use fabaccess_server.Prelude.{
  ◌≡◌, ◌≢◌, ◌↔◌, refl, sym, ap, ap₂, subst, ◌∙◌, Bool, true, false, List, [], ◌∷◌, ◌++◌,
  append_assoc, ◌⊎◌, inl, inr,
}
use fabaccess_server.Actors.Mqtt.{
  Event, incoming, cancel, stream_done, requests_done, timeout, io, other, closed, event_loop,
}

-- Events of which each ends the loop.
pub data IsFinal : Event → Type 0 where
  cancelled : IsFinal cancel
  no_stream : IsFinal stream_done
  no_requests : IsFinal requests_done
  unhandled : IsFinal other

abbrev pub AllTimeouts : List Event → Type 0
AllTimeouts [] = Unit
AllTimeouts (e ∷ events) = (e ≡ timeout) × AllTimeouts events

-- An IO error comes last, but for timeouts.
pub record EndsInFault (events : List Event) : Type 0 where
  pub before : List Event
  pub timeouts : List Event
  pub same : events ≡ before ++ io ∷ timeouts
  pub only_timeouts : AllTimeouts timeouts

-- Some event ends the loop by itself, or is an IO error after another one.
pub record HasFatal (events : List Event) : Type 0 where
  pub before : List Event
  pub event : Event
  pub after : List Event
  pub same : events ≡ before ++ event ∷ after
  pub fatal : IsFinal event ⊎ ((event ≡ io) × EndsInFault before)

abbrev pub Closes : Bool → List Event → Type 0
Closes fault events = (rest : List Event) × (event_loop fault events ≡ closed rest)

append-Closes :
    (pre tail : List Event) → ((f : Bool) → Closes f tail) → (f : Bool) → Closes f (pre ++ tail)
unfolding event_loop
append-Closes [] tail h f = h f
append-Closes (incoming ∷ pre) tail h f = append-Closes pre tail h false
append-Closes (cancel ∷ pre) tail h f = (pre ++ tail, refl)
append-Closes (stream_done ∷ pre) tail h f = (pre ++ tail, refl)
append-Closes (requests_done ∷ pre) tail h f = (pre ++ tail, refl)
append-Closes (timeout ∷ pre) tail h f = append-Closes pre tail h f
append-Closes (io ∷ pre) tail h true = (pre ++ tail, refl)
append-Closes (io ∷ pre) tail h false = append-Closes pre tail h true
append-Closes (other ∷ pre) tail h f = (pre ++ tail, refl)

final-Closes : (e : Event) (after : List Event) → IsFinal e → (f : Bool) → Closes f (e ∷ after)
unfolding event_loop
final-Closes _ after cancelled f = (after, refl)
final-Closes _ after no_stream f = (after, refl)
final-Closes _ after no_requests f = (after, refl)
final-Closes _ after unhandled f = (after, refl)

timeouts_close :
    (timeouts after : List Event) → AllTimeouts timeouts → Closes true (timeouts ++ io ∷ after)
unfolding event_loop
timeouts_close [] after a = (after, refl)
timeouts_close (e ∷ timeouts) after (same, a) =
    subst (λ (e' : Event). Closes true (e' ∷ timeouts ++ io ∷ after)) (sym same)
      (timeouts_close timeouts after a)

fault-Closes :
    (timeouts after : List Event)
    → AllTimeouts timeouts
    → (f : Bool) → Closes f (io ∷ timeouts ++ io ∷ after)
unfolding event_loop
fault-Closes timeouts after a true = (timeouts ++ io ∷ after, refl)
fault-Closes timeouts after a false = timeouts_close timeouts after a

fatal-Closes : (events : List Event) → HasFatal events → Closes false events
fatal-Closes events h = elim h.fatal [
  | inl final ↦
      subst (Closes false) (sym h.same)
        (append-Closes h.before (h.event ∷ h.after) (final-Closes h.event h.after final) false)
  | inr (is_io, ends) ↦
      let whole : events ≡ ends.before ++ (io ∷ (ends.timeouts ++ io ∷ h.after)) =
        h.same
        ∙ (ap₂ (λ (b : List Event) (e : Event). b ++ e ∷ h.after) ends.same is_io
            ∙ append_assoc ends.before (io ∷ ends.timeouts) (io ∷ h.after)) in
      subst (Closes false) (sym whole) (
        append-Closes ends.before (io ∷ ends.timeouts ++ io ∷ h.after)
          (fault-Closes ends.timeouts h.after ends.only_timeouts) false)
]

-- What ended the loop; `true` stands for an IO error before the events.
abbrev Cause : Bool → List Event → Type 0
Cause true events = HasFatal (io ∷ events)
Cause false events = HasFatal events

later : (e : Event) (events : List Event) → HasFatal events → HasFatal (e ∷ events)
later e events h = record {
  before = e ∷ h.before;
  event = h.event;
  after = h.after;
  same = ap (λ (es : List Event). e ∷ es) h.same;
  fatal = elim h.fatal [
    | inl final ↦ inl final
    | inr (is_io, ends) ↦ inr (
      is_io,
      record {
        before = e ∷ ends.before;
        timeouts = ends.timeouts;
        same = ap (λ (es : List Event). e ∷ es) ends.same;
        only_timeouts = ends.only_timeouts;
      },
    )
  ];
}

caused : (f : Bool) (e : Event) (events : List Event) → HasFatal (e ∷ events) → Cause f (e ∷ events)
caused true e events h = later io (e ∷ events) h
caused false e events h = h

final_fatal : (e : Event) (events : List Event) → IsFinal e → HasFatal (e ∷ events)
final_fatal e events final = record {
  before = [];
  event = e;
  after = events;
  same = refl;
  fatal = inl final;
}

no_io : (e : Event) → IsFinal e → e ≢ io
no_io _ cancelled h = cc
no_io _ no_stream h = cc
no_io _ no_requests h = cc
no_io _ unhandled h = cc

no_fault : (pre timeouts : List Event) → [] ≢ pre ++ io ∷ timeouts
no_fault [] timeouts h = cc
no_fault (e ∷ pre) timeouts h = cc

tail_of : List Event → List Event
tail_of [] = []
tail_of (e ∷ events) = events

head_of : List Event → Event
head_of [] = timeout
head_of (e ∷ events) = e

past_ends :
    (x : Event) (before pre timeouts : List Event)
    → x ≡ io
    → x ∷ before ≡ pre ++ io ∷ timeouts
    → AllTimeouts timeouts
    → EndsInFault (io ∷ timeout ∷ before)
unfolding tail_of
past_ends x before [] timeouts is_io same a = record {
  before = [];
  timeouts = timeout ∷ before;
  same = refl;
  only_timeouts = (refl, subst AllTimeouts (sym (ap tail_of same)) a);
}
past_ends x before (y ∷ pre) timeouts is_io same a = record {
  before = io ∷ timeout ∷ pre;
  timeouts = timeouts;
  same = ap (λ (es : List Event). io ∷ timeout ∷ es) (ap tail_of same);
  only_timeouts = a;
}

past :
    (before : List Event) (e : Event) (after events : List Event)
    → io ∷ events ≡ before ++ e ∷ after
    → IsFinal e ⊎ ((e ≡ io) × EndsInFault before)
    → HasFatal (io ∷ timeout ∷ events)
unfolding tail_of head_of
past [] e after events same (inl final) = absurd (no_io e final (sym (ap head_of same)))
past [] e after events same (inr (is_io, ends)) =
    absurd (no_fault ends.before ends.timeouts ends.same)
past (x ∷ before) e after events same fatal = record {
  before = io ∷ timeout ∷ before;
  event = e;
  after = after;
  same = ap (λ (es : List Event). io ∷ timeout ∷ es) (ap tail_of same);
  fatal = elim fatal [
    | inl final ↦ inl final
    | inr (is_io, ends) ↦ inr (
      is_io,
      past_ends x before ends.before ends.timeouts (sym (ap head_of same)) ends.same
          ends.only_timeouts,
    )
  ];
}

-- A timeout between an IO error and what follows.
past_timeout : (events : List Event) → HasFatal (io ∷ events) → HasFatal (io ∷ timeout ∷ events)
past_timeout events h = past h.before h.event h.after events h.same h.fatal

closes-Cause :
    (f : Bool) (events rest : List Event) → event_loop f events ≡ closed rest → Cause f events
unfolding event_loop
closes-Cause f [] rest h = cc
closes-Cause f (incoming ∷ events) rest h =
    caused f incoming events (later incoming events (closes-Cause false events rest h))
closes-Cause f (cancel ∷ events) rest h =
    caused f cancel events (final_fatal cancel events cancelled)
closes-Cause f (stream_done ∷ events) rest h =
    caused f stream_done events (final_fatal stream_done events no_stream)
closes-Cause f (requests_done ∷ events) rest h =
    caused f requests_done events (final_fatal requests_done events no_requests)
closes-Cause true (timeout ∷ events) rest h = past_timeout events (closes-Cause true events rest h)
closes-Cause false (timeout ∷ events) rest h =
    later timeout events (closes-Cause false events rest h)
closes-Cause true (io ∷ events) rest h = record {
  before = io ∷ [];
  event = io;
  after = events;
  same = refl;
  fatal = inr (refl, record { before = []; timeouts = []; same = refl; only_timeouts = tt });
}
closes-Cause false (io ∷ events) rest h = closes-Cause true events rest h
closes-Cause f (other ∷ events) rest h = caused f other events (final_fatal other events unhandled)

-- The loop of the MQTT client is left exactly when some poll gives a final error, or an IO error
-- that follows another one with only timeouts between them.
pub event_loop-HasFatal :
    (events : List Event)
    → ((rest : List Event) × (event_loop false events ≡ closed rest)) ↔ HasFatal events
event_loop-HasFatal events =
    (λ (rest, h). closes-Cause false events rest h, λ h. fatal-Closes events h)
