-- ===== src/Worker/LogStream.antt =====
-- internal/worker/agent.go, streamLogs: how the lines of a job become log requests.
pub mod Lossless
use Prim.Native.Char.{Char}
use Prim.Native.String.{[] as no_text, ◌∷◌ as before, ◌++◌ as followed_by}
use jobplane.Base.{ℕ, String, Bool, true, false, List, [], ◌∷◌, ◌++◌, leb, length, if◌then◌else◌}
use jobplane.Base.Text.{is_char}

abbrev pub log_batch_size : ℕ
log_batch_size = 100

abbrev pub nul : Char
nul = "\0"

-- Postgres refuses the null character, so it is taken out.
unfoldable pub sanitize : String → String
sanitize no_text = no_text
sanitize (before c s) = let rest = sanitize s in if is_char c nul then rest else before c rest

-- strings.Join(batch, "\n")
unfoldable pub join_lines : List String → String
join_lines [] = no_text
join_lines (l ∷ []) = l
join_lines (l ∷ m ∷ ls) = followed_by l (followed_by "\n" (join_lines (m ∷ ls)))

-- What the loop selects: a line of the scanner, its end, the ticker, or the end of the context.
pub data Signal : Type 0 where
  line : String → Signal
  closed : Signal
  tick : Signal
  cancelled : Signal

-- The lines of the current batch, the batches that were given to sendLogs, and whether it runs.
pub record Stream : Type 0 where
  pub batch : List String
  pub sent : List (List String)
  pub running : Bool

-- An error of sendLogs is logged only; the batch is cleared all the same.
unfoldable pub flush : Stream → Stream
flush s = elim s.batch [ [] ↦ s | l ∷ ls ↦ record s { batch = []; sent = s.sent ++ (l ∷ ls) ∷ [] } ]

abbrev pub finish : Stream → Stream
finish s = record s { running = false }

abbrev pub add_line : String → Stream → Stream
add_line l s = record s { batch = s.batch ++ sanitize l ∷ [] }

abbrev pub flush_full : Stream → Stream
flush_full s = if leb log_batch_size (length s.batch) then flush s else s

unfoldable pub select_signal : Signal → Stream → Stream
unfolding flush
select_signal (line l) s = flush_full (add_line l s)
select_signal closed s = finish (flush s)
select_signal tick s = flush s
select_signal cancelled s = finish (flush s)

abbrev pub new_stream : Stream
new_stream = record { batch = []; sent = []; running = true }

-- The loop, until it has ended.
unfoldable pub stream_logs : List Signal → Stream → Stream
unfolding select_signal
stream_logs [] s = s
stream_logs (x ∷ xs) s =
    let rest = stream_logs xs (select_signal x s) in if s.running then rest else s

-- The bodies of the requests.
unfoldable pub contents : List (List String) → List String
unfolding join_lines
contents [] = []
contents (b ∷ bs) = join_lines b ∷ contents bs
