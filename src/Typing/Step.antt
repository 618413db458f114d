-- ===== src/Typing/Step.antt =====
-- The calls of the registry as one step function, and histories of calls.
use zooid.Prelude.{List, String, [], ◌∷◌}
use zooid.Typing.{TypingRegistry, enter, exit, pause, resume, tick}

pub data Call : Type 0 where
  enters exits pauses resumes : (room user session : String) → Call
  ticks : (key : String) → Call

unfoldable pub step : Call → TypingRegistry → TypingRegistry
step (enters room user session) c = enter room user session c
step (exits room user session) c = exit room user session c
step (pauses room user session) c = pause room user session c
step (resumes room user session) c = resume room user session c
step (ticks k) c = tick k c

unfoldable pub run : List Call → TypingRegistry → TypingRegistry
unfolding step
run [] c = c
run (x ∷ xs) c = run xs (step x c)
