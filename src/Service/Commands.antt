-- ===== src/Service/Commands.antt =====
-- `GatewayService._command_or_chat` and `_control_plane_command` of
-- src/feishu_dify_gateway/service.py: what a chat message asks for. Each branch of the source
-- returns a text or makes one request to the control plane; `say` and `ask` are these.
pub mod Allowed
use feishu_dify_gateway.Base.{
  String, Bool, not, ◌&&◌, ◌||◌, none, some, List, [], ◌∷◌, ◌++◌, if◌then◌else◌, drop,
}
use feishu_dify_gateway.Text.{Text, codes, same, starts_with, is_space, lstrip, strip, is_blank}
use feishu_dify_gateway.Service.Monad.{ControlRequest}

pub data Plan : Type 0 where
  say : Text → Plan
  ask : ControlRequest → Plan
  show_status show_alerts : Plan

-- The first word of a text, and what follows it.
unfoldable pub first_word : Text → Text × Text
first_word [] = ([], [])
first_word (c ∷ s) =
    let (word, rest) = first_word s in if is_space c then ([], c ∷ s) else (c ∷ word, rest)

-- `s.split(maxsplit=1)`, with "" for a part that is not there.
unfoldable pub split_once : Text → Text × Text
unfolding first_word
split_once s = let (word, rest) = first_word (lstrip s) in (word, lstrip rest)

abbrev pub get : Text → Plan
get path = ask (record { method = "GET"; path = path; body = none })

abbrev pub post : Text → List (String × Text) → Plan
post path body = ask (record { method = "POST"; path = path; body = some body })

abbrev pub decided_by_feishu : List (String × Text)
decided_by_feishu = ("decided_by", codes "feishu") ∷ ("note", []) ∷ []

abbrev pub policy_body : Text → List (String × Text)
policy_body policy = ("policy", policy) ∷ ("note", codes "feishu") ∷ []

abbrev pub policy_usage : Text
policy_usage = codes "用法：/cp policy <fingerprint> auto|manual|ignore"

abbrev pub is_policy : Text → Bool
is_policy p = same p (codes "auto") || same p (codes "manual") || same p (codes "ignore")

abbrev pub is_decision : Text → Bool
is_decision a = same a (codes "approve") || same a (codes "reject") || same a (codes "rollback")

abbrev pub is_switch : Text → Bool
is_switch a = same a (codes "pause") || same a (codes "resume")

module _ (lower : Text → Text) (usage : Text) where
  -- The branch of `/cp policy`.
  unfoldable pub set_policy : Text → Plan
  unfolding split_once
  set_policy arg =
      let (first, rest) = split_once arg in
      let fingerprint = strip first in
      let policy = lower (strip rest) in
      if is_policy policy
      then post (codes "/v1/alerts/" ++ (fingerprint ++ codes "/policy")) (policy_body policy)
      else say policy_usage

  -- The dispatch on the action. `usage` is the text that lists the commands.
  unfoldable pub control_plane_action : (action arg : Text) → Plan
  unfolding set_policy
  control_plane_action action arg =
      let has_arg = not (is_blank arg) in
      if same action (codes "status")
      then get (codes "/status")
      else if is_decision action && has_arg
      then post (codes "/v1/approvals/" ++ (arg ++ codes "/decision"))
          (("action", action) ∷ decided_by_feishu)
      else if is_switch action
      then post (codes "/v1/control/" ++ action) (("reason", codes "feishu") ∷ [])
      else if same action (codes "promote") && has_arg
      then post (codes "/v1/candidates/" ++ (arg ++ codes "/promote")) decided_by_feishu
      else if same action (codes "policy") && has_arg
      then set_policy arg
      else if same action (codes "run") && has_arg
      then post (codes "/v1/alerts/" ++ (arg ++ codes "/run")) []
      else if same action (codes "ignore") && has_arg
      then post (codes "/v1/alerts/" ++ (arg ++ codes "/policy")) (policy_body (codes "ignore"))
      else if same action (codes "evidence")
      then get (codes "/v1/evidence")
      else if same action (codes "dismiss") && has_arg
      then post (codes "/v1/candidates/" ++ (arg ++ codes "/dismiss")) decided_by_feishu
      else say usage

  unfoldable pub control_plane_command : Text → Plan
  unfolding control_plane_action
  control_plane_command text =
      let (first, rest) = split_once text in control_plane_action (lower first) (strip rest)

  abbrev pub task_hint : Text
  task_hint = codes "请描述你要派发的任务。"

  unfoldable pub dispatch_task : Text → Plan
  dispatch_task text =
      if is_blank (strip text)
      then say task_hint
      else post (codes "/v1/tasks") (("prompt", strip text) ∷ ("repo", []) ∷ ("project", []) ∷ [])

  -- `help` is the text that `/help` returns.
  unfoldable pub command_or_chat : (help text : Text) → Plan
  unfolding control_plane_command dispatch_task
  command_or_chat help text =
      let command = lower (strip text) in
      if same command (codes "/help")
      then say help
      else if same command (codes "/status")
      then show_status
      else if same command (codes "/alerts")
      then show_alerts
      else if starts_with command (codes "/cp ")
      then control_plane_command (strip (drop 4 text))
      else if starts_with command (codes "/task ")
      then dispatch_task (strip (drop 6 text))
      else dispatch_task text
