-- ===== src/Worker/LogStream/Lossless.antt =====
-- No line is lost, doubled or moved on the way to the batches (internal/worker/agent.go, streamLogs).
use jobplane.Base.{
  suc, ◌≤◌, ◌<◌, ◌≡◌, ◌∙◌, refl, sym, subst, ap, inl, inr, String, Bool, true, false, List, [], ◌∷◌,
  ◌++◌, arith, leb, length, All, Bool-cases, if◌then◌else◌,
}
use mathlib.Core.List.{append_assoc, append-nil}
use jobplane.Worker.LogStream.{
  log_batch_size, sanitize, Signal, line, closed, tick, cancelled, Stream, flush, add_line,
  flush_full, select_signal, new_stream, stream_logs,
}

-- The lines of a list of signals, as they are sent.
abbrev pub lines_of : List Signal → List String
lines_of [] = []
lines_of (line l ∷ xs) = sanitize l ∷ lines_of xs
lines_of (closed ∷ xs) = lines_of xs
lines_of (tick ∷ xs) = lines_of xs
lines_of (cancelled ∷ xs) = lines_of xs

-- Only lines and ticks.
abbrev pub IsOpen : Signal → Type 0
IsOpen (line l) = Unit {0}
IsOpen tick = Unit {0}
IsOpen closed = ⊥
IsOpen cancelled = ⊥

abbrev pub flat : List (List String) → List String
flat [] = []
flat (b ∷ bs) = b ++ flat bs

flat-append_one : (bs : List (List String)) (b : List String) → flat (bs ++ b ∷ []) ≡ flat bs ++ b
flat-append_one [] b = append-nil b
flat-append_one (c ∷ bs) b =
    ap (λ xs. c ++ xs) (flat-append_one bs b) ∙ sym (append_assoc c (flat bs) b)

-- All lines so far, in order.
abbrev pub so_far : Stream → List String
so_far s = flat s.sent ++ s.batch

-- A batch that is sent holds from 1 to 100 lines.
abbrev pub IsBatch : List String → Type 0
IsBatch b = (1 ≤ length b) × (length b ≤ 100)

pub record IsStream (s : Stream) : Type 0 where
  pub small : length s.batch < 100
  pub batches : All IsBatch s.sent

length-append_one : (xs : List String) (x : String) → length (xs ++ x ∷ []) ≡ suc (length xs)
length-append_one [] x = refl
length-append_one (y ∷ xs) x = ground (arith, length-append_one xs x)

All-append_one :
    (bs : List (List String)) (b : List String)
    → All IsBatch bs
    → IsBatch b
    → All IsBatch (bs ++ b ∷ [])
All-append_one [] b h k = (k, tt)
All-append_one (c ∷ bs) b h k = (h.0, All-append_one bs b h.1 k)

-- A flush sends what the batch holds.
record Flushed (s t : Stream) : Type 0 where
  same : so_far t ≡ so_far s
  empty : t.batch ≡ []
  alive : t.running ≡ s.running
  batches : All IsBatch t.sent

flush_parts :
    (batch : List String) (sent : List (List String)) (running : Bool)
    → length batch ≤ 100
    → All IsBatch sent
    → let s : Stream = record { batch = batch; sent = sent; running = running } in
      Flushed s (flush s)
unfolding flush
flush_parts [] sent running small h = record {
  same = refl;
  empty = refl;
  alive = refl;
  batches = h;
}
flush_parts (l ∷ ls) sent running small h = record {
  same = append-nil _ ∙ flat-append_one sent (l ∷ ls);
  empty = refl;
  alive = refl;
  batches = All-append_one sent (l ∷ ls) h (omega arith, small);
}

flush-Flushed : (s : Stream) → length s.batch ≤ 100 → All IsBatch s.sent → Flushed s (flush s)
flush-Flushed s = flush_parts s.batch s.sent s.running

-- After a flush that ends the loop.
Flushed-all : (s t : Stream) → Flushed s t → flat t.sent ≡ so_far s
Flushed-all s t f = sym (append-nil _) ∙ ap (λ b. flat t.sent ++ b) (sym f.empty) ∙ f.same

-- One signal that leaves the loop open.
record Advances (x : Signal) (s t : Stream) : Type 0 where
  more : so_far t ≡ so_far s ++ lines_of (x ∷ [])
  alive : t.running ≡ s.running
  fine : IsStream t

added-Advances :
    (l : String) (s : Stream) → IsStream s → Advances (line l) s (flush_full (add_line l s))
added-Advances l s h =
    elim (Bool-cases (leb log_batch_size (length (s.batch ++ sanitize l ∷ [])))) [
      | inl full ↦
          let f =
            flush-Flushed (add_line l s)
              (omega (arith, h.small, length-append_one s.batch (sanitize l))) h.batches in
          rw full (record {
            more = f.same ∙ sym (append_assoc (flat s.sent) s.batch (sanitize l ∷ []));
            alive = f.alive;
            fine = record { small = rw (f.empty) (omega arith); batches = f.batches };
          })
      | inr room ↦ rw room (record {
        more = sym (append_assoc (flat s.sent) s.batch (sanitize l ∷ []));
        alive = refl;
        fine = record { small = ground arith; batches = h.batches };
      })
    ]

select_signal-Advances :
    (x : Signal) (s : Stream) → IsOpen x → IsStream s → Advances x s (select_signal x s)
unfolding select_signal
select_signal-Advances (line l) s o h = added-Advances l s h
select_signal-Advances tick s o h =
    let f = flush-Flushed s (omega (arith, h.small)) h.batches in
    record {
      more = f.same ∙ sym (append-nil _);
      alive = f.alive;
      fine = record { small = rw (f.empty) (omega arith); batches = f.batches };
    }
select_signal-Advances closed s o h = absurd o
select_signal-Advances cancelled s o h = absurd o

lines_of-cons :
    (x : Signal) (xs : List Signal) → lines_of (x ∷ []) ++ lines_of xs ≡ lines_of (x ∷ xs)
lines_of-cons (line l) xs = refl
lines_of-cons closed xs = refl
lines_of-cons tick xs = refl
lines_of-cons cancelled xs = refl

abbrev Complete : List Signal → Stream → Stream → Type 0
Complete xs s t =
    (flat t.sent ≡ so_far s ++ lines_of xs)
    × All IsBatch t.sent
    × (t.batch ≡ [])
    × (t.running ≡ false)

while_running : (b : Bool) (x y : Stream) → b ≡ true → (if b then x else y) ≡ x
while_running b x y h = rw h

stream_logs-Complete :
    (xs : List Signal) (s : Stream)
    → All IsOpen xs
    → IsStream s
    → s.running ≡ true
    → Complete xs s (stream_logs (xs ++ closed ∷ []) s)
unfolding stream_logs select_signal
stream_logs-Complete [] s o h on =
    let f = flush-Flushed s (omega (arith, h.small)) h.batches in
    subst (Complete [] s) (sym (while_running s.running _ _ on))
      (Flushed-all s (flush s) f ∙ sym (append-nil _), f.batches, f.empty, refl)
stream_logs-Complete (x ∷ xs) s o h on =
    let a = select_signal-Advances x s o.0 h in
    let rest = stream_logs-Complete xs (select_signal x s) o.1 a.fine (a.alive ∙ on) in
    subst (Complete (x ∷ xs) s) (sym (while_running s.running _ _ on)) (
      rest.0
          ∙ ap (λ ys. ys ++ lines_of xs) a.more
          ∙ append_assoc (so_far s) (lines_of (x ∷ [])) (lines_of xs)
          ∙ ap (λ ys. so_far s ++ ys) (lines_of-cons x xs),
      rest.1,
      rest.2,
      rest.3,
    )

-- Where the scanner comes to the end of the output, the batches together are its lines in order,
-- each sanitised, and every batch holds from 1 to 100 lines.
pub stream_logs-lossless :
    (xs : List Signal)
    → All IsOpen xs
    → let s = stream_logs (xs ++ closed ∷ []) new_stream in
      (flat s.sent ≡ lines_of xs) × All IsBatch s.sent × (s.batch ≡ []) × (s.running ≡ false)
stream_logs-lossless xs o =
    stream_logs-Complete xs new_stream o (record { small = omega arith; batches = tt }) refl
