-- ===== src/Companion/Tools.antt =====
-- src/orchestrator/companion.py: a tool that the policy lets run acts as itself alone.
use unison_orchestrator.Prelude.{String, Bool, Option, none, some, List}
use unison_orchestrator.Prelude.Json.{Json, obj, Items, nil, cons, Fields}
use unison_orchestrator.Companion.Types.{Request, Reply, Config, Python}
use unison_orchestrator.Companion.Context.{kv_get, dashboard_get, dashboard_put}
use unison_orchestrator.Companion.Recall.{
  recaps, searched, emit_recaps, recall_workflow_from_dashboard,
}
use unison_orchestrator.Companion.Design.{
  store_design, emit_card, publish_design, design, design_named, apply_workflow_design,
}
use unison_orchestrator.Companion.Kept.{
  Keeps, next-Keeps, then-Keeps, if-Keeps, return-Keeps, lift-Keeps,
}
use unison_orchestrator.Companion.Guard.{is_act, acts_for, is_policy, Under, send-aside, send-act}
use unison_orchestrator.Companion.Aside.{steps}

module _ (python : Python) (answer : List Request → Reply) (config : Config) where
  recaps-Keeps : (t : String) (l : Items) → Keeps (Under answer t) (recaps python l)
  unfolding recaps
  recaps-Keeps t nil = return-Keeps _
  recaps-Keeps t (cons v l) =
      next-Keeps (lift-Keeps _) (λ base. next-Keeps (recaps-Keeps t l) (λ later. return-Keeps _))

  searched-Keeps :
      (t : String) (p d : Json) (l : Items)
      → Keeps (Under answer t) (searched python answer config p d l)
  unfolding searched is_act is_policy
  searched-Keeps t p d l = search (steps, send-aside)

  emit_recaps-Keeps :
      (t : String) (p : Json) (l : Items)
      → Keeps (Under answer t) (emit_recaps python answer config p l)
  unfolding emit_recaps is_act is_policy
  emit_recaps-Keeps t p nil = return-Keeps _
  emit_recaps-Keeps t p (cons (obj c) l) =
      next-Keeps (search send-aside) (λ r. if-Keeps _ (emit_recaps-Keeps t p l) (return-Keeps _))
  emit_recaps-Keeps t p (cons _ l) = return-Keeps _

  dashboard_get-Keeps : (p : Json) → Keeps (Under answer "workflow.recall") (dashboard_get answer p)
  unfolding dashboard_get acts_for
  dashboard_get-Keeps p = search (steps, send-act)

  dashboard_put-Keeps :
      (p : Json) (d : Fields) → Keeps (Under answer "workflow.recall") (dashboard_put answer p d)
  unfolding dashboard_put acts_for
  dashboard_put-Keeps p d = search (steps, send-act)

  pub recall-Keeps :
      (p q d : Json) (h : Option Items)
      → Keeps
          (Under answer "workflow.recall")
          (recall_workflow_from_dashboard python answer config p q d h)
  unfolding recall_workflow_from_dashboard
  recall-Keeps p q d h =
      search
        (
          steps, dashboard_get-Keeps, dashboard_put-Keeps, searched-Keeps, recaps-Keeps,
          emit_recaps-Keeps,
        )
        depth 12

  kv_get-Keeps : (l : List String) → Keeps (Under answer "workflow.design") (kv_get answer l)
  unfolding kv_get acts_for
  kv_get-Keeps l = search send-act

  store_design-Keeps :
      (k : String) (d : Fields) (b : Bool)
      → Keeps (Under answer "workflow.design") (store_design python answer config k d b)
  unfolding store_design acts_for
  store_design-Keeps k d b = search (steps, send-act)

  design_put-Keeps :
      (p : Json) (d : Fields) → Keeps (Under answer "workflow.design") (dashboard_put answer p d)
  unfolding dashboard_put acts_for
  design_put-Keeps p d = search send-act

  emit_card-Keeps :
      (p : Json) (d : Fields)
      → Keeps (Under answer "workflow.design") (emit_card python answer config p d)
  unfolding emit_card is_act is_policy
  emit_card-Keeps p d = search (steps, send-aside)

  publish_design-Keeps :
      (w : String) (p j : Json) (b : Bool) (d : Fields) (l : Items)
      → Keeps (Under answer "workflow.design") (publish_design python answer config w p j b d l)
  unfolding publish_design
  publish_design-Keeps w p j b d l =
      next-Keeps (design_put-Keeps p _) (λ _. then-Keeps (emit_card-Keeps p _) (return-Keeps _))

  design-Keeps :
      (w : String) (p j : Json) (b : Bool) (l : Items)
      → Keeps (Under answer "workflow.design") (design python answer config w p j b l)
  unfolding design
  design-Keeps w p j b l =
      search (steps, kv_get-Keeps, store_design-Keeps, publish_design-Keeps) depth 12

  design_named-Keeps :
      (o : Option String) (p j : Json) (b : Bool) (l : Items)
      → Keeps (Under answer "workflow.design") (design_named python answer config o p j b l)
  unfolding design_named
  design_named-Keeps none p j b l = return-Keeps _
  design_named-Keeps (some w) p j b l = design-Keeps w p j b l

  pub apply_workflow_design-Keeps :
      (p w j m c : Json)
      → Keeps
          (Under answer "workflow.design")
          (apply_workflow_design python answer config p w j m c)
  unfolding apply_workflow_design
  apply_workflow_design-Keeps p w j m c = search design_named-Keeps
