-- ===== src/Tests/Search.antt =====
-- The search of src/synthesizer.rs on the sample.
use anasemble.Prelude.{◌*◌, ◌^◌, ◌≤◌, ◌≡◌, ◌≢◌, refl, inl, inr, true, [], ok, err, length}
use anasemble.Text.{text}
use anasemble.Text.Order.{text_eq, text_lt}
use anasemble.BTreeMap.{get, from_list}
use anasemble.Model.{contradictory_evidence, insufficient_evidence}
use anasemble.Synthesizer.{satisfies, admits, texts_eq}
use anasemble.Synthesizer.Enumerate.{reconstruct_v1, pairs}
use anasemble.Synthesizer.Enumerate.Complete.Answer.{
  IsTheAnswer, reconstruct_v1-IsTheAnswer, reconstruct_v1-examined, reconstruct_v1-contradictory,
}
use anasemble.Tests.Sample.{toggle, rows, answer, evidence, conflict}

found : reconstruct_v1 (text "switch") (text "v1") toggle evidence ≡ ok (answer, 4)
unfolding reconstruct_v1 satisfies admits texts_eq text_eq text_lt get from_list
found = refl

refused :
    reconstruct_v1 (text "switch") (text "v1") toggle conflict
    ≡ err (contradictory_evidence "no candidate satisfies the normalized evidence")
unfolding reconstruct_v1 satisfies admits texts_eq text_eq text_lt get from_list
refused = refl

ambiguous_evidence :
    reconstruct_v1 (text "switch") (text "v1") toggle []
    ≡ err (insufficient_evidence "evidence admits multiple candidates")
unfolding reconstruct_v1 satisfies admits texts_eq text_eq text_lt get from_list
ambiguous_evidence = refl

reconstruct_v1-IsTheAnswer_example : IsTheAnswer toggle evidence rows
reconstruct_v1-IsTheAnswer_example =
    reconstruct_v1-IsTheAnswer (text "switch") (text "v1") toggle evidence answer 4 found

reconstruct_v1-examined_example :
    (4
      ≡ (length toggle.states * length toggle.outputs)
        ^ (length toggle.states * length toggle.inputs))
    × (4 ≤ toggle.max_candidates)
reconstruct_v1-examined_example =
    reconstruct_v1-examined (text "switch") (text "v1") toggle evidence answer 4 found

reconstruct_v1-contradictory_example : satisfies rows toggle conflict ≢ ok true
unfolding pairs
reconstruct_v1-contradictory_example =
    reconstruct_v1-contradictory (text "switch") (text "v1") toggle conflict
      "no candidate satisfies the normalized evidence" rows refused
      (
        ((text "on", text "ok"), inr (inl refl), refl),
        (((text "on", text "ok"), inr (inl refl), refl), tt),
      )
