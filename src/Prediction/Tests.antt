-- ===== src/Prediction/Tests.antt =====
-- Runs of the model.
use naabu.Prelude.{
  List, ◌==◌, ◌≡◌, refl, not, ◌&&◌, [], ◌∷◌, none, some, if◌then◌else◌, elem, lookup, has_key, ltb,
  IsMap, arith,
}
use mathlib.Core.Path.{subst}
use naabu.Prelude.Int.{ℤ, pos, int_eq}
use naabu.Prediction.{Targets, predict}
use naabu.Prelude.Text.{Text, codes}
use naabu.Prediction.Train.{train}
use naabu.Prediction.Trained.{hosts_with, total_occurs, probability-train}
use naabu.Prediction.Samples.{tenths, web}
use naabu.Prediction.Predict.{IsModel, probability, best, confidence_of, predict_exact}

web-IsModel : IsModel tenths web
unfolding lookup has_key
web-IsModel = record { outer = web_outer; inner = web_inner }
  where
    web_outer : IsMap web.correlations
    web_outer = (refl, tt)

    the_targets :
        (given : ℤ) (ts : Targets tenths)
        → lookup given web.correlations ≡ some ts
        → ((pos 443, 700) ∷ (pos 22, 400) ∷ []) ≡ ts
    the_targets given ts e = ground arith

    web_inner :
        (given : ℤ) (ts : Targets tenths) → lookup given web.correlations ≡ some ts → IsMap ts
    web_inner given ts e = subst IsMap (the_targets given ts e) (refl, (refl, tt))

predict_exact_example : confidence_of tenths (pos 443) (predict tenths web (pos 80 ∷ []) 500) ≡ (
    let top = best tenths web (pos 443) (pos 80 ∷ []) 0 in
    if not (elem (pos 443) (pos 80 ∷ [])) && ltb 0 top && not (ltb top 500) then some top else none)
predict_exact_example = predict_exact tenths web (pos 80 ∷ []) 500 (pos 443) web-IsModel

-- Two of the three hosts with port 80 have port 443.
abbrev hosts : List (Text × List ℤ)
hosts =
    (codes "a", pos 80 ∷ pos 443 ∷ [])
    ∷ (codes "b", pos 443 ∷ pos 22 ∷ pos 80 ∷ [])
    ∷ (codes "c", pos 80 ∷ [])
    ∷ []

learnt_443 : probability tenths (train tenths web hosts) (pos 80) (pos 443) ≡ some 666
unfolding probability train
learnt_443 = refl

probability-train_example : probability tenths (train tenths web hosts) (pos 80) (pos 443) ≡ (
    if hosts_with (pos 80) (pos 443) hosts == 0
    then probability tenths web (pos 80) (pos 443)
    else some (tenths.ratio (hosts_with (pos 80) (pos 443) hosts) (total_occurs (pos 80) hosts)))
probability-train_example =
    probability-train tenths web hosts (pos 80) (pos 443) (λ h. ground arith)
