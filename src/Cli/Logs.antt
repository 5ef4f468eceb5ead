-- ===== src/Cli/Logs.antt =====
-- cmd/cli/cmd/logs.go: the loop of `jobctl logs`.
pub mod Cursor
pub mod Complete
use Prim.Native.Char.{Char}
use Prim.Native.String.{[] as no_text, ◌∷◌ as before, ◌++◌}
use jobplane.Base.{
  ℕ, zero, suc, String, Bool, true, false, Option, none, some, List, [], ◌∷◌, ◌++◌ as append, map,
  if◌then◌else◌,
}
use jobplane.Base.Int.{ℤ, pos, ltb_ℤ}
use jobplane.Base.Text.{is_char}
use jobplane.Api.{LogLine}
use jobplane.Cli.Client.{ClientResult, received, api_error, client_error}

abbrev newline : Char
newline = "\n"

-- The text is not empty, and its last character is not a newline.
unfoldable pub lacks_newline : String → Bool
lacks_newline no_text = false
lacks_newline (before c no_text) = if is_char c newline then false else true
lacks_newline (before c (before d s)) = lacks_newline (before d s)

-- What is printed of a line.
unfoldable pub printed : LogLine → String
unfolding lacks_newline
printed line = if lacks_newline line.content then line.content ++ "\n" else line.content

-- The greatest id so far.
unfoldable pub last_id : ℤ → List LogLine → ℤ
last_id last [] = last
last_id last (line ∷ lines) = last_id (if ltb_ℤ last (pos line.id) then pos line.id else last) lines

-- The output, and whether it ended with an error.
pub record Shown : Type 0 where
  pub output : List String
  pub has_failed : Bool

abbrev pub after_page : List String → Option Shown → Option Shown
after_page texts none = none
after_page texts (some shown) = some (record shown { output = append texts shown.output })

-- One round: an error or an empty page ends the loop, else the page is printed and it goes on.
unfoldable pub next_page :
    (List LogLine → Option Shown) → ClientResult (List LogLine) → Option Shown
unfolding printed
next_page go_on (api_error code text) = some (record { output = []; has_failed = true })
next_page go_on (client_error text) = some (record { output = []; has_failed = true })
next_page go_on (received []) = some (record { output = []; has_failed = false })
next_page go_on (received (line ∷ lines)) =
    after_page (map printed (line ∷ lines)) (go_on (line ∷ lines))

module _ (fetch : ℤ → ClientResult (List LogLine)) where
  -- Without --follow; `none` where the fuel runs out.
  unfoldable pub show_logs : ℕ → ℤ → Option Shown
  unfolding next_page last_id
  show_logs zero last = none
  show_logs (suc fuel) last = next_page (λ lines. show_logs fuel (last_id last lines)) (fetch last)

-- With --follow: an endless loop, whose first rounds the list answers in turn.
unfoldable pub follow_logs : List (ℤ → ClientResult (List LogLine)) → ℤ → List String
unfolding printed last_id
follow_logs [] last = []
follow_logs (fetch ∷ later) last = elim (fetch last) [
  | api_error code text ↦ follow_logs later last
  | client_error text ↦ follow_logs later last
  | received lines ↦ append (map printed lines) (follow_logs later (last_id last lines))
]
