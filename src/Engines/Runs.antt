-- ===== src/Engines/Runs.antt =====
-- Sequences of calls of the manager, with what the code that it calls answers.
use ray_me.Base.{ℕ, Bool, List, ◌∷◌, []}
use ray_me.Engines.Types.{Manager}
use ray_me.Engines.Switch.{Outcome, switch_tts_engine}
use ray_me.Engines.Prepare.{Request, Answers, prepare_tts_engine}
use ray_me.Engines.Release.{Invalidation, release_tts_prompt_lease, invalidate_tts_prompt, shutdown}

pub data ManagerCall : Type 0 where
  switch_engine : ℕ → Outcome → Outcome → ManagerCall
  prepare : Request → Answers → ManagerCall
  release : ℕ → ManagerCall
  invalidate : ℕ → ℕ → Bool → Invalidation → ManagerCall
  shut_down : Outcome → ManagerCall

unfoldable pub serve : Manager → ManagerCall → Manager
unfolding switch_tts_engine prepare_tts_engine release_tts_prompt_lease invalidate_tts_prompt
    shutdown
serve m (switch_engine e unload load) = (switch_tts_engine m e unload load).0
serve m (prepare r a) = (prepare_tts_engine m r a).0
serve m (release owner) = (release_tts_prompt_lease m owner).0
serve m (invalidate e key well_formed answer) = (invalidate_tts_prompt m e key well_formed answer).0
serve m (shut_down unload) = (shutdown m unload).0

unfoldable pub serve_all : Manager → List ManagerCall → Manager
unfolding serve
serve_all m [] = m
serve_all m (c ∷ cs) = serve_all (serve m c) cs
