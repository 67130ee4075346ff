-- ===== src/Service/Commands/Allowed.antt =====
-- The requests that a chat message (src/feishu_dify_gateway/service.py) can make of the control
-- plane.
use feishu_dify_gateway.Base.{
  ◌≡◌, refl, ◌≢◌, ◌⊎◌, inl, inr, Bool, true, false, not, ◌&&◌, none, some, [], ◌∷◌, ◌++◌, arith,
  if◌then◌else◌,
}
use feishu_dify_gateway.Text.{Text, codes, same, is_blank, strip, starts_with}
use feishu_dify_gateway.Service.Monad.{ControlRequest}
use feishu_dify_gateway.Service.Commands.{
  Plan, ask, decided_by_feishu, policy_body, set_policy, control_plane_action,
  control_plane_command, dispatch_task, command_or_chat, is_policy, is_decision, is_switch,
  split_once,
}

-- The control plane's surface, as far as a chat message can reach it.
pub data IsAllowed : ControlRequest → Type 0 where
  status :
      (r : ControlRequest)
      → r ≡ record { method = "GET"; path = codes "/status"; body = none }
      → IsAllowed r
  evidence :
      (r : ControlRequest)
      → r ≡ record { method = "GET"; path = codes "/v1/evidence"; body = none }
      → IsAllowed r
  decision :
      (r : ControlRequest) (action arg : Text)
      → is_decision action ≡ true
      → arg ≢ []
      → r ≡ record {
        method = "POST";
        path = codes "/v1/approvals/" ++ (arg ++ codes "/decision");
        body = some (("action", action) ∷ decided_by_feishu);
      }
      → IsAllowed r
  switch :
      (r : ControlRequest) (action : Text)
      → is_switch action ≡ true
      → r ≡ record {
        method = "POST";
        path = codes "/v1/control/" ++ action;
        body = some (("reason", codes "feishu") ∷ []);
      }
      → IsAllowed r
  candidate :
      (r : ControlRequest) (arg verb : Text)
      → (verb ≡ codes "/promote") ⊎ (verb ≡ codes "/dismiss")
      → arg ≢ []
      → r ≡ record {
        method = "POST";
        path = codes "/v1/candidates/" ++ (arg ++ verb);
        body = some decided_by_feishu;
      }
      → IsAllowed r
  policy :
      (r : ControlRequest) (fingerprint value : Text)
      → is_policy value ≡ true
      → r ≡ record {
        method = "POST";
        path = codes "/v1/alerts/" ++ (fingerprint ++ codes "/policy");
        body = some (policy_body value);
      }
      → IsAllowed r
  run :
      (r : ControlRequest) (arg : Text)
      → arg ≢ []
      → r ≡ record {
        method = "POST";
        path = codes "/v1/alerts/" ++ (arg ++ codes "/run");
        body = some [];
      }
      → IsAllowed r
  task :
      (r : ControlRequest) (prompt : Text)
      → prompt ≢ []
      → r ≡ record {
        method = "POST";
        path = codes "/v1/tasks";
        body = some (("prompt", prompt) ∷ ("repo", []) ∷ ("project", []) ∷ []);
      }
      → IsAllowed r

abbrev pub Plans : Plan → Type 0
Plans (ask r) = IsAllowed r
Plans _ = Unit

-- A branch of a chain of tests.
Plans-if :
    (b : Bool) (p q : Plan)
    → (b ≡ true → Plans p)
    → (b ≡ false → Plans q)
    → Plans (if b then p else q)
Plans-if true p q yes_case no_case = yes_case refl
Plans-if false p q yes_case no_case = no_case refl

&&-left : (a b : Bool) → a && b ≡ true → a ≡ true
&&-left true b h = refl
&&-left false b h = h

&&-right : (a b : Bool) → a && b ≡ true → b ≡ true
&&-right true b h = h
&&-right false b h = ground arith

has_text : (b : Bool) (arg : Text) → b && not (is_blank arg) ≡ true → arg ≢ []
has_text b [] h = ground (arith, &&-right b false h)
has_text b (c ∷ s) h = λ e. cc

not_blank : (arg : Text) → is_blank arg ≡ false → arg ≢ []
not_blank [] h = ground arith
not_blank (c ∷ s) h = λ e. cc

module _ (lower : Text → Text) (usage : Text) where
  set_policy-Plans : (arg : Text) → Plans (set_policy lower usage arg)
  unfolding set_policy
  set_policy-Plans arg =
      let (first, rest) = split_once arg in
      Plans-if (is_policy (lower (strip rest))) _ _
        (λ h. policy _ (strip first) (lower (strip rest)) h refl) (λ _. tt)

  control_plane_action-Plans :
      (action arg : Text) → Plans (control_plane_action lower usage action arg)
  unfolding control_plane_action same
  control_plane_action-Plans action arg =
      Plans-if (same action (codes "status")) _ _ (λ _. status _ refl)
        (λ _.
          Plans-if (is_decision action && not (is_blank arg)) _ _
            (λ h. decision _ action arg (&&-left _ _ h) (has_text _ arg h) refl)
            (λ _.
              Plans-if (is_switch action) _ _ (λ h. switch _ action h refl)
                (λ _.
                  Plans-if (same action (codes "promote") && not (is_blank arg)) _ _
                    (λ h. candidate _ arg (codes "/promote") (inl refl) (has_text _ arg h) refl)
                    (λ _.
                      Plans-if (same action (codes "policy") && not (is_blank arg)) _ _
                        (λ _. set_policy-Plans arg)
                        (λ _.
                          Plans-if (same action (codes "run") && not (is_blank arg)) _ _
                            (λ h. run _ arg (has_text _ arg h) refl)
                            (λ _.
                              Plans-if (same action (codes "ignore") && not (is_blank arg)) _ _
                                (λ _. policy _ arg (codes "ignore") refl refl)
                                (λ _.
                                  Plans-if (same action (codes "evidence")) _ _
                                    (λ _. evidence _ refl)
                                    (λ _.
                                      Plans-if (same action (codes "dismiss") && not (is_blank arg))
                                        _ _
                                        (λ h.
                                          candidate _ arg (codes "/dismiss") (inr refl)
                                            (has_text _ arg h) refl)
                                        (λ _. tt)))))))))

  dispatch_task-Plans : (text : Text) → Plans (dispatch_task lower usage text)
  unfolding dispatch_task
  dispatch_task-Plans text =
      Plans-if (is_blank (strip text)) _ _ (λ _. tt)
        (λ h. task _ (strip text) (not_blank (strip text) h) refl)

  -- A chat message, whatever its text, makes the control plane no other request than those that
  -- `IsAllowed` lists: each has the path of one of the commands, with an argument that is not empty
  -- where it decides on an approval or a candidate, runs an alert or dispatches a task, and a body
  -- whose action or policy is one of the known words.
  pub command_or_chat-IsAllowed : (help text : Text) → Plans (command_or_chat lower usage help text)
  unfolding command_or_chat
  command_or_chat-IsAllowed help text =
      let command = lower (strip text) in
      Plans-if (same command (codes "/help")) _ _ (λ _. tt)
        (λ _.
          Plans-if (same command (codes "/status")) _ _ (λ _. tt)
            (λ _.
              Plans-if (same command (codes "/alerts")) _ _ (λ _. tt)
                (λ _.
                  Plans-if (starts_with command (codes "/cp ")) _ _
                    (λ _. unfold control_plane_command in control_plane_action-Plans _ _)
                    (λ _.
                      Plans-if (starts_with command (codes "/task ")) _ _
                        (λ _. dispatch_task-Plans _) (λ _. dispatch_task-Plans text)))))
