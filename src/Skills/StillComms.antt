-- ===== src/Skills/StillComms.antt =====
-- src/orchestrator/skills.py: the skills on communications, dashboards and capabilities do not ask for
-- an actuation.
use unison_orchestrator.Prelude.{
  ℕ, String, Bool, Option, none, some, List, [], ◌∷◌, Result, ok, err,
}
use unison_orchestrator.Prelude.Json.{Json, arr, obj, Items, nil, cons, Fields, field, end}
use unison_orchestrator.Companion.Types.{Request, Reply, CompanionError, Python}
use unison_orchestrator.Companion.Kept.{Keeps, next-Keeps, if-Keeps, return-Keeps, raise-Keeps}
use unison_orchestrator.Companion.Aside.{steps}
use unison_orchestrator.Companion.Context.{kv_get, dashboard_get, dashboard_put}
use unison_orchestrator.Skills.Types.{SkillConfig}
use unison_orchestrator.Skills.Comms.{
  post_graph, post_comms, log_comms_context, run_result, run_capability, run_candidate,
  resolve_and_run, report, communicate, check_for, comms_check, summarize_for, comms_summarize,
}
use unison_orchestrator.Skills.Messages.{reply_to, comms_reply, compose_to, comms_compose, attend}
use unison_orchestrator.Skills.Dashboard.{
  channel_cards, emit_cards, log_refresh, publish_refresh, refresh_for, dashboard_refresh,
}
use unison_orchestrator.Skills.Startup.{
  report_caps, caps_report, caps_read, load_caps, locale_read, pick_locale, caps_for,
  startup_prompt_plan,
}
use unison_orchestrator.Skills.Still.{is_actuate, Still, attempt-Keeps, send-Still}

module _ (python : Python) (answer : List Request → Reply) (config : SkillConfig) (n : ℕ) where
  post_graph-Keeps :
      (p : Json) (d e : String) (v w : Fields)
      → Keeps (Still n) (post_graph python answer config p d e v w)
  unfolding post_graph is_actuate
  post_graph-Keeps p d e v w = search (steps, send-Still) depth 12

  post_comms-Keeps :
      (p : Json) (i : String) (c : Items) (x : Fields) (r : Result CompanionError (List String))
      → Keeps (Still n) (post_comms python answer config p i c x r)
  unfolding post_comms
  post_comms-Keeps p i c x (err e) = return-Keeps _
  post_comms-Keeps p i c x (ok t) = post_graph-Keeps _ _ _ _ _

  log_comms_context-Keeps :
      (p : Json) (i : String) (c : Json) (x : Fields)
      → Keeps (Still n) (log_comms_context python answer config p i c x)
  unfolding log_comms_context
  log_comms_context-Keeps p i c x = search (steps, post_comms-Keeps)

  run_result-Keeps :
      (r : Reply) (o : Option Fields) → Keeps (Still n) (run_result python answer config r o)
  unfolding run_result
  run_result-Keeps r none = raise-Keeps _
  run_result-Keeps r (some b) = return-Keeps _

  run_capability-Keeps :
      (i : Json) (a : Fields) → Keeps (Still n) (run_capability python answer config i a)
  unfolding run_capability is_actuate
  run_capability-Keeps i a = search (steps, send-Still, run_result-Keeps)

  run_candidate-Keeps :
      (i : String) (a : Fields) (r : Reply) (o : Option Fields)
      → Keeps (Still n) (run_candidate python answer config i a r o)
  unfolding run_candidate
  run_candidate-Keeps i a r none = raise-Keeps _
  run_candidate-Keeps i a r (some c) = run_capability-Keeps _ _

  resolve_and_run-Keeps :
      (i : String) (a : Fields) → Keeps (Still n) (resolve_and_run python answer config i a)
  unfolding resolve_and_run is_actuate
  resolve_and_run-Keeps i a = search (steps, send-Still, run_candidate-Keeps) depth 12

  report-Keeps :
      (p : Json) (i : String) (w : Bool) (x d : Fields → Fields) (r : Result CompanionError Fields)
      → Keeps (Still n) (report python answer config p i w x d r)
  unfolding report
  report-Keeps p i w x d (err e) = return-Keeps _
  report-Keeps p i w x d (ok b) = search (steps, log_comms_context-Keeps)

  communicate-Keeps :
      (p : Json) (i : String) (w : Bool) (a : Fields) (x d : Fields → Fields)
      → Keeps (Still n) (communicate python answer config p i w a x d)
  unfolding communicate
  communicate-Keeps p i w a x d =
      next-Keeps (attempt-Keeps (resolve_and_run-Keeps i a)) λ r. report-Keeps p i w x d r

  check_for-Keeps :
      (o : Option String) (c : Json) → Keeps (Still n) (check_for python answer config o c)
  unfolding check_for
  check_for-Keeps none c = return-Keeps _
  check_for-Keeps (some p) c = search communicate-Keeps

  summarize_for-Keeps :
      (o : Option String) (w : Json) → Keeps (Still n) (summarize_for python answer config o w)
  unfolding summarize_for
  summarize_for-Keeps none w = return-Keeps _
  summarize_for-Keeps (some p) w = search communicate-Keeps

  reply_to-Keeps :
      (o t m : Option String) (b : Json) → Keeps (Still n) (reply_to python answer config o t m b)
  unfolding reply_to
  reply_to-Keeps none t m b = return-Keeps _
  reply_to-Keeps (some p) none m b = return-Keeps _
  reply_to-Keeps (some p) (some t) none b = return-Keeps _
  reply_to-Keeps (some p) (some t) (some m) b = search communicate-Keeps

  compose_to-Keeps :
      (o : Option String) (c r s t : Json)
      → Keeps (Still n) (compose_to python answer config o c r s t)
  unfolding compose_to
  compose_to-Keeps none c r s t = return-Keeps _
  compose_to-Keeps (some p) c (arr (cons r rs)) s t = search (steps, communicate-Keeps)
  compose_to-Keeps (some p) c (arr nil) s t = return-Keeps _
  compose_to-Keeps (some p) c _ s t = return-Keeps _

  pub attend-Keeps : (i : String) (e : Fields) → Keeps (Still n) (attend python answer config i e)
  unfolding attend
  attend-Keeps i e = search (steps, communicate-Keeps)

  pub comms_check-Keeps : (e : Fields) → Keeps (Still n) (comms_check python answer config e)
  unfolding comms_check
  comms_check-Keeps e = search (steps, check_for-Keeps)

  pub comms_summarize-Keeps :
      (e : Fields) → Keeps (Still n) (comms_summarize python answer config e)
  unfolding comms_summarize
  comms_summarize-Keeps e = search (steps, summarize_for-Keeps)

  pub comms_reply-Keeps : (e : Fields) → Keeps (Still n) (comms_reply python answer config e)
  unfolding comms_reply
  comms_reply-Keeps e = search (steps, reply_to-Keeps)

  pub comms_compose-Keeps : (e : Fields) → Keeps (Still n) (comms_compose python answer config e)
  unfolding comms_compose
  comms_compose-Keeps e = search (steps, compose_to-Keeps)

  channel_cards-Keeps :
      (p : Json) (l : List String) → Keeps (Still n) (channel_cards python answer config p l)
  unfolding channel_cards
  channel_cards-Keeps p [] = return-Keeps _
  channel_cards-Keeps p (c ∷ cs) =
      next-Keeps (attempt-Keeps (resolve_and_run-Keeps _ _))
        λ r. next-Keeps (channel_cards-Keeps p cs) λ l. return-Keeps _

  emit_cards-Keeps :
      (p : Json) (l : List Fields) → Keeps (Still n) (emit_cards python answer config p l)
  unfolding emit_cards is_actuate
  emit_cards-Keeps p [] = return-Keeps _
  emit_cards-Keeps p (c ∷ l) =
      next-Keeps (search send-Still) λ r. if-Keeps _ (emit_cards-Keeps p l) (return-Keeps _)

  log_refresh-Keeps :
      (p : Json) (c : Items) (r : Result CompanionError (List String))
      → Keeps (Still n) (log_refresh python answer config p c r)
  unfolding log_refresh
  log_refresh-Keeps p c (err e) = return-Keeps _
  log_refresh-Keeps p c (ok t) = post_graph-Keeps _ _ _ _ _

  board_get-Keeps : (p : Json) → Keeps (Still n) (dashboard_get answer p)
  unfolding dashboard_get is_actuate
  board_get-Keeps p = search (steps, send-Still)

  board_put-Keeps : (p : Json) (d : Fields) → Keeps (Still n) (dashboard_put answer p d)
  unfolding dashboard_put is_actuate
  board_put-Keeps p d = search send-Still

  publish_refresh-Keeps :
      (p f : Json) (c s : Items) → Keeps (Still n) (publish_refresh python answer config p f c s)
  unfolding publish_refresh
  publish_refresh-Keeps p f c s =
      search (steps, board_put-Keeps, emit_cards-Keeps, log_refresh-Keeps) depth 12

  refresh_for-Keeps : (p g : Json) → Keeps (Still n) (refresh_for python answer config p g)
  unfolding refresh_for is_actuate
  refresh_for-Keeps p g =
      search (steps, send-Still, board_get-Keeps, channel_cards-Keeps, publish_refresh-Keeps) depth
        16

  pub dashboard_refresh-Keeps :
      (e : Fields) → Keeps (Still n) (dashboard_refresh python answer config e)
  unfolding dashboard_refresh
  dashboard_refresh-Keeps e = search (steps, refresh_for-Keeps)

  report_caps-Keeps : (p c : Json) → Keeps (Still n) (report_caps python answer p c)
  unfolding report_caps is_actuate
  report_caps-Keeps p (obj c) = search (steps, send-Still)
  report_caps-Keeps p _ = return-Keeps _

  pub caps_report-Keeps : (e : Fields) → Keeps (Still n) (caps_report python answer e)
  unfolding caps_report
  caps_report-Keeps e = search (steps, report_caps-Keeps)

  caps_read-Keeps : (p : Json) (o : Option Fields) → Keeps (Still n) (caps_read python answer p o)
  unfolding caps_read
  caps_read-Keeps p none = return-Keeps _
  caps_read-Keeps p (some b) = search steps

  load_caps-Keeps : (p : Json) → Keeps (Still n) (load_caps python answer p)
  unfolding load_caps kv_get is_actuate
  load_caps-Keeps p = search (steps, send-Still, caps_read-Keeps)

  caps_for-Keeps : (p : Json) (d : Fields) → Keeps (Still n) (caps_for python answer p d)
  unfolding caps_for
  caps_for-Keeps p end = load_caps-Keeps p
  caps_for-Keeps p (field k v d) = return-Keeps _

  locale_read-Keeps : (o : Option Fields) → Keeps (Still n) (locale_read python answer config o)
  unfolding locale_read
  locale_read-Keeps none = return-Keeps _
  locale_read-Keeps (some b) = search steps

  pick_locale-Keeps :
      (p : Json) (o : Option String) → Keeps (Still n) (pick_locale python answer config p o)
  unfolding pick_locale is_actuate
  pick_locale-Keeps p none = search (steps, send-Still, locale_read-Keeps)
  pick_locale-Keeps p (some h) = return-Keeps _

  pub startup_prompt_plan-Keeps :
      (e : Fields) → Keeps (Still n) (startup_prompt_plan python answer config e)
  unfolding startup_prompt_plan is_actuate
  startup_prompt_plan-Keeps e =
      search (steps, send-Still, caps_for-Keeps, pick_locale-Keeps) depth 12
