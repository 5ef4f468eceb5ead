-- ===== src/Cli/Status.antt =====
-- cmd/cli/cmd/status.go: how `jobctl status` shows an execution. `Format` holds what fmt, time and
-- json make of numbers, times and results.
use Prim.Native.String.{◌++◌}
use jobplane.Base.{
  ℕ, zero, suc, ◌*◌, ◌/◌, ◌%◌, ◌-◌, String, Option, none, some, List, [], ◌∷◌, ◌++◌ as append, ltb,
  ◌==◌, if◌then◌else◌,
}
use jobplane.Base.Int.{ℤ, pos, negsuc}
use jobplane.Store.Models.{
  Time, Json, second, minute, ExecutionStatus, pending, scheduled, running, completed, failed,
  cancelled, CallbackStatus, callback_pending, callback_delivered, callback_failed,
}
use jobplane.Worker.Report.{is_zero}
use jobplane.Controller.Handlers.Jobs.{is_empty}
use jobplane.Api.{ExecutionResponse}

pub record Format : Type 0 where
  pub show_nat : ℕ → String
  pub show_int : ℤ → String
  -- %.1f of the seconds of a duration
  pub show_seconds : ℕ → String
  pub show_time : Time → String
  pub show_uuid : ℕ → String
  -- json.Unmarshal and json.MarshalIndent
  pub indent : Json → Option String

-- The ANSI colour codes.
abbrev color_reset : String
color_reset = "\u{1b}[0m"

abbrev color_bold : String
color_bold = "\u{1b}[1m"

abbrev color_dim : String
color_dim = "\u{1b}[2m"

abbrev color_red : String
color_red = "\u{1b}[31m"

abbrev color_green : String
color_green = "\u{1b}[32m"

abbrev color_yellow : String
color_yellow = "\u{1b}[33m"

abbrev color_cyan : String
color_cyan = "\u{1b}[36m"

abbrev hour : ℕ
hour = 60 * minute

-- The status as the controller writes it.
abbrev pub status_text : ExecutionStatus → String
status_text pending = "PENDING"
status_text scheduled = "SCHEDULED"
status_text running = "RUNNING"
status_text completed = "SUCCEEDED"
status_text failed = "FAILED"
status_text cancelled = "CANCELLED"

unfoldable pub status_icon : ExecutionStatus → String
status_icon completed = color_green ++ ("✓" ++ color_reset)
status_icon failed = color_red ++ ("✗" ++ color_reset)
status_icon running = color_yellow ++ ("⏳" ++ color_reset)
status_icon pending = color_cyan ++ ("◯" ++ color_reset)
status_icon scheduled = "•"
status_icon cancelled = "•"

abbrev colored : String → String → String → String
colored icon color text = icon ++ (" " ++ (color ++ (text ++ color_reset)))

unfoldable pub colorize_status : ExecutionStatus → String
unfolding status_icon
colorize_status completed = colored (status_icon completed) color_green "SUCCEEDED"
colorize_status failed = colored (status_icon failed) color_red "FAILED"
colorize_status running = colored (status_icon running) color_yellow "RUNNING"
colorize_status pending = colored (status_icon pending) color_cyan "PENDING"
colorize_status scheduled = "SCHEDULED"
colorize_status cancelled = "CANCELLED"

unfoldable pub colorize_callback_status : CallbackStatus → String
colorize_callback_status callback_delivered = color_green ++ ("✓ DELIVERED" ++ color_reset)
colorize_callback_status callback_failed = color_red ++ ("✗ FAILED" ++ color_reset)
colorize_callback_status callback_pending = color_yellow ++ ("⏳ PENDING" ++ color_reset)

-- -n
abbrev negative : ℕ → ℤ
negative zero = pos 0
negative (suc n) = negsuc n

module _ (format : Format) where
  abbrev days_text : ℕ → String
  days_text days = if days == 1 then "1 day" else format.show_nat days ++ " days"

  -- Of a time since that is not negative.
  unfoldable pub relative_time : ℕ → String
  relative_time duration =
      if ltb duration minute
      then format.show_nat (duration / second) ++ "s"
      else if ltb duration hour
      then format.show_nat (duration / minute) ++ "m"
      else if ltb duration (24 * hour)
      then format.show_nat (duration / hour) ++ "h"
      else days_text (duration / (24 * hour))

  unfoldable pub format_duration : ℕ → String
  format_duration d =
      if ltb d second
      then format.show_nat (d / 1000000) ++ "ms"
      else if ltb d minute
      then format.show_seconds d ++ "s"
      else if ltb d hour
      then format.show_nat (d / minute) ++ ("m " ++ (format.show_nat ((d / second) % 60) ++ "s"))
      else format.show_nat (d / hour) ++ ("h " ++ (format.show_nat ((d / minute) % 60) ++ "m"))

  -- relativeTime, of time.Since(t); a time in the future gives negative seconds.
  unfoldable pub relative_since : Time → Time → String
  unfolding relative_time
  relative_since now t =
      if ltb now t
      then format.show_int (negative ((t - now) / second)) ++ "s"
      else relative_time (now - t)

  unfoldable pub format_time_with_relative : Time → Option Time → String
  unfolding relative_since
  format_time_with_relative now none = "-"
  format_time_with_relative now (some t) =
      format.show_time t
      ++ (" " ++ (color_dim ++ ("(" ++ (relative_since now t ++ (" ago)" ++ color_reset)))))

  -- formatDuration of a difference of two times
  unfoldable pub format_between : Time → Time → String
  unfolding format_duration
  format_between started ended =
      if ltb ended started
      then format.show_int (negative ((started - ended) / 1000000)) ++ "ms"
      else format_duration (ended - started)

  -- A label, dimmed, with its padding and its value.
  abbrev labelled : String → String → String
  labelled label rest = color_dim ++ (label ++ (color_reset ++ rest))

  unfoldable pub exit_code_line : Option ℤ → String
  exit_code_line none = labelled "Exit Code:" "   -"
  exit_code_line (some code) = labelled "Exit Code:" (
      "   "
      ++ ((if is_zero code then color_green else color_red)
          ++ (format.show_int code ++ color_reset)))

  unfoldable pub error_lines : Option String → List String
  error_lines none = []
  error_lines (some text) =
      labelled "Error:" ("       " ++ (color_red ++ (text ++ color_reset))) ∷ []

  unfoldable pub finished_line : Time → Option Time → Option Time → String
  unfolding format_time_with_relative format_between
  finished_line now (some started) (some ended) = labelled "Finished:" (
      "    "
      ++ (format_time_with_relative now (some ended)
          ++ (" "
              ++ (color_cyan ++ ("(" ++ (format_between started ended ++ (")" ++ color_reset)))))))
  finished_line now started ended =
      labelled "Finished:" ("    " ++ format_time_with_relative now ended)

  abbrev indented : Option String → List String
  indented none = []
  indented (some text) = labelled "Result:" ("      " ++ text) ∷ []

  unfoldable pub result_lines : Option Json → List String
  result_lines none = []
  result_lines (some json) = if is_empty json then [] else indented (format.indent json)

  abbrev callback_status_lines : Option CallbackStatus → List String
  callback_status_lines none = []
  callback_status_lines (some status) =
      labelled "CB Status:" ("   " ++ colorize_callback_status status) ∷ []

  unfoldable pub callback_lines : Option String → Option CallbackStatus → List String
  unfolding colorize_callback_status
  callback_lines none status = []
  callback_lines (some url) status =
      if is_empty url
      then []
      else labelled "Callback:" ("    " ++ url) ∷ callback_status_lines status

  -- The lines that printStatus prints.
  unfoldable pub print_status : Time → ExecutionResponse → List String
  unfolding status_icon colorize_status exit_code_line error_lines finished_line result_lines
      callback_lines
  print_status now e =
      append
        ((status_icon e.status ++ (" " ++ (color_bold ++ ("Execution Details" ++ color_reset))))
          ∷ "──────────────────────────────"
          ∷ labelled "ID:" ("          " ++ format.show_uuid e.id)
          ∷ labelled "Status:" ("      " ++ colorize_status e.status)
          ∷ labelled "Attempt:" ("     " ++ format.show_nat e.attempt)
          ∷ exit_code_line e.exit_code
          ∷ [])
        (append (error_lines e.error) (
          labelled "Started:" ("     " ++ format_time_with_relative now e.started_at)
          ∷ finished_line now e.started_at e.completed_at
          ∷ append (result_lines e.result) (callback_lines e.callback_url e.callback_status)))
