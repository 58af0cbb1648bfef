-- ===== src/Emergency/Examples.antt =====
-- A pause of entries and its release, and the theorems at these calls.
use Prim.Native.Char.{code}
use Prim.Native.String.{String}
use cresta.Base.{◌≡◌, refl, some, [], ◌∷◌, returns}
use cresta.Emergency.{
  Text, Stops, EmergencyStop, Command, activate_pause_entry, release_pause_entry, strip, first_stop,
  pause_entry_activated, pause_entry_released, log, released_stop,
}
use cresta.Emergency.Steps.{Reach, Step, no_stops, IsLogged, Reach-IsLogged}

abbrev text_of : String → Text
text_of String.[] = []
text_of (String.◌∷◌ first rest) = code first ∷ text_of rest

abbrev pause : Command
pause = record {
  user = 7;
  command_reason = text_of " volatile market ";
  idempotency_key = text_of "pause-2026-03-03-1";
  now = 100;
}

abbrev resume : Command
resume = record {
  user = 7;
  command_reason = text_of "calm again";
  idempotency_key = text_of "resume-2026-03-03-1";
  now = 200;
}

abbrev stop : EmergencyStop
stop = first_stop pause (text_of "volatile market") (text_of "pause-2026-03-03-1") 0

abbrev paused_db : Stops
paused_db = record {
  current = some stop;
  audit = log pause pause_entry_activated stop [];
  next_id = 1;
}

abbrev ended : EmergencyStop
ended = released_stop resume (text_of "calm again") (text_of "resume-2026-03-03-1") stop

abbrev resumed_db : Stops
resumed_db = record paused_db {
  current = some ended;
  audit = log resume pause_entry_released ended paused_db.audit;
}

pausing : activate_pause_entry pause no_stops ≡ returns (stop, paused_db)
unfolding activate_pause_entry strip
pausing = refl

resuming : release_pause_entry resume paused_db ≡ returns (ended, resumed_db)
unfolding release_pause_entry strip
resuming = refl

to_resumed : Reach resumed_db
to_resumed =
    Reach.next (Reach.next Reach.start (Step.activation pause no_stops paused_db stop pausing))
      (Step.releasing resume paused_db resumed_db ended resuming)

Reach-IsLogged_example : IsLogged resumed_db.current resumed_db.audit
Reach-IsLogged_example = Reach-IsLogged resumed_db to_resumed
