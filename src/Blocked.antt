-- ===== src/Blocked.antt =====
-- watchdog/blocked.py: the structured report that a blocked execution carries.
use agent_gear.Common.{
  String, not, Option, none, some, List, ℤ, all, contains, is_blank, is_empty, if◌then◌else◌,
}
use agent_gear.Errors.{Result, invalid_blocked_report}
use agent_gear.Errors.Checks.{◌>>◌, raise_if, raise_if_some}
use agent_gear.Floats.{require_non_negative_int}
use agent_gear.Models.Messages.{
  Message, is_blank_message, recommend_review, recommend_human, recommend_after,
}
use agent_gear.Models.Records.{Checkpoint, BlockedReport, make_blocked_report}
use agent_gear.Recovery.{request_human}

-- `_default_recommendation`
unfoldable pub default_recommendation : List String → Message
default_recommendation strategies =
    if is_empty strategies
    then recommend_review
    else if contains request_human strategies
    then recommend_human
    else recommend_after strategies

abbrev pub recommendation : Option Message → List String → Message
recommendation none strategies = default_recommendation strategies
recommendation (some action) strategies = action

unfoldable pub build_blocked_report :
    Message
    → Message
    → Option Checkpoint
    → ℤ
    → List String
    → List Message
    → List String
    → Option Message
    → Result BlockedReport
build_blocked_report blocker cause checkpoint attempts strategies evidence files action = do
  raise_if (is_blank_message blocker) invalid_blocked_report
  raise_if (is_blank_message cause) invalid_blocked_report
  require_non_negative_int invalid_blocked_report attempts
  raise_if (not (all (λ s. not (is_blank s)) strategies)) invalid_blocked_report
  raise_if (not (all (λ m. not (is_blank_message m)) evidence)) invalid_blocked_report
  raise_if_some is_blank_message action invalid_blocked_report
  make_blocked_report blocker cause checkpoint attempts strategies evidence files
      (recommendation action strategies)
