-- ===== src/Reflex/Rules.antt =====
-- igris-reflex, `classify`: its rules in their order, one definition each.
use igrisv.Base.{
  ℕ, ◌+◌, ◌-◌, String, Bool, true, false, ◌&&◌, ◌||◌, Option, none, some, [], ◌∷◌, ltb,
  if◌then◌else◌, contains,
}
use igrisv.Reflex.{
  count_hits, calibrate, device_transfer, device_status, memory_query, tool_exec, communication,
  risky_op, general, low, medium, high, critical, local_tiny, local_small, fast_cloud,
  reasoning_cloud, Float, ReflexDecision,
}

abbrev pub destructive : String → ℕ
destructive t =
    count_hits t
      ("delete" ∷ "format" ∷ "rm -rf" ∷ "wipe" ∷ "shutdown" ∷ "pay " ∷ "transfer money" ∷ [])

abbrev pub external_send : String → ℕ
external_send t =
    count_hits t ("send email" ∷ "send sms" ∷ "send message" ∷ "post publicly" ∷ "publish" ∷ [])

-- `Iterator::find` over the known targets.
abbrev pub target : String → Option String
target t =
    if contains t "laptop"
    then some "laptop"
    else if contains t "phone"
    then some "phone"
    else if contains t "server"
    then some "server"
    else none

abbrev is_some : Option String → Bool
is_some none = false
is_some (some d) = true

abbrev pub transfer_verbs : String → ℕ
transfer_verbs t = count_hits t ("send" ∷ "share" ∷ "push" ∷ "copy to" ∷ "move to" ∷ [])

abbrev pub payload : String → ℕ
payload t =
    count_hits t ("build" ∷ "file" ∷ "photo" ∷ "video" ∷ "document" ∷ "doc " ∷ "zip" ∷ "apk" ∷ [])

abbrev pub status_hits : String → ℕ
status_hits t = count_hits t (
    "battery" ∷ "cpu" ∷ "storage" ∷ "disk space" ∷ "memory usage" ∷ "how much" ∷ "status" ∷ "health"
    ∷ [])

abbrev pub mem_hits : String → ℕ
mem_hits t = count_hits t (
    "remember" ∷ "recall" ∷ "what did" ∷ "forgot" ∷ "note " ∷ "my preference" ∷ "remind me"
    ∷ "what is my" ∷ [])

abbrev pub comm_hits : String → ℕ
comm_hits t = count_hits t ("draft" ∷ "remind" ∷ "notify" ∷ "schedule" ∷ "calendar" ∷ [])

abbrev pub tool_hits : String → ℕ
tool_hits t =
    count_hits t ("build" ∷ "test" ∷ "run" ∷ "open" ∷ "compile" ∷ "search for" ∷ "find " ∷ [])

abbrev pub tool_of : String → String
tool_of t =
    if contains t "search for" || contains t "find "
    then "browser"
    else if contains t "open"
    then "app_launcher"
    else "terminal"

module _ (float : Float) where
  abbrev pub risky : String → ReflexDecision float.f32
  risky t = record {
    intent = risky_op;
    tool = none;
    target_device = none;
    requires_reasoning = true;
    risk = if ltb 0 (destructive t) then critical else high;
    approval = true;
    memory_scope = "global";
    model_hint = reasoning_cloud;
    confidence = calibrate float (float.lit 70) (destructive t + external_send t - 1);
    cached = false;
  }

  abbrev pub transfer : String → ReflexDecision float.f32
  transfer t = record {
    intent = device_transfer;
    tool = some "fastswap";
    target_device = target t;
    requires_reasoning = false;
    risk = low;
    approval = false;
    memory_scope = "current_project";
    model_hint = local_tiny;
    confidence =
        if is_some (target t)
        then calibrate float (float.lit 85) (transfer_verbs t + payload t)
        else float.lit 55;
    cached = false;
  }

  abbrev pub status : String → ReflexDecision float.f32
  status t = record {
    intent = device_status;
    tool = some "device_query";
    target_device = none;
    requires_reasoning = false;
    risk = low;
    approval = false;
    memory_scope = "device";
    model_hint = local_tiny;
    confidence = calibrate float (float.lit 88) (status_hits t - 1);
    cached = false;
  }

  abbrev pub recall : String → ReflexDecision float.f32
  recall t = record {
    intent = memory_query;
    tool = some "memory_search";
    target_device = none;
    requires_reasoning = false;
    risk = low;
    approval = false;
    memory_scope = "long_term";
    model_hint = local_tiny;
    confidence = calibrate float (float.lit 78) (mem_hits t - 1);
    cached = false;
  }

  abbrev pub draft : String → ReflexDecision float.f32
  draft t = record {
    intent = communication;
    tool = some "messaging";
    target_device = none;
    requires_reasoning = true;
    risk = medium;
    approval = false;
    memory_scope = "recent";
    model_hint = fast_cloud;
    confidence = calibrate float (float.lit 62) (comm_hits t - 1);
    cached = false;
  }

  abbrev pub execution : String → ReflexDecision float.f32
  execution t = record {
    intent = tool_exec;
    tool = some (tool_of t);
    target_device = none;
    requires_reasoning = true;
    risk = medium;
    approval = false;
    memory_scope = "current_project";
    model_hint = local_small;
    confidence = calibrate float (float.lit 60) (tool_hits t - 1);
    cached = false;
  }

  abbrev pub fallback : ReflexDecision float.f32
  fallback = record {
    intent = general;
    tool = none;
    target_device = none;
    requires_reasoning = true;
    risk = medium;
    approval = false;
    memory_scope = "recent";
    model_hint = fast_cloud;
    confidence = float.lit 50;
    cached = false;
  }

  unfoldable pub classify : String → ReflexDecision float.f32
  classify t =
      if ltb 0 (destructive t + external_send t)
      then risky t
      else if ltb 0 (transfer_verbs t) && (is_some (target t) || ltb 0 (payload t))
      then transfer t
      else if ltb 0 (status_hits t)
      then status t
      else if ltb 0 (mem_hits t)
      then recall t
      else if ltb 0 (comm_hits t)
      then draft t
      else if ltb 0 (tool_hits t)
      then execution t
      else fallback
