-- ===== src/Canonical/Human.antt =====
-- `_require_human` of selection_service.py.
use nyc_rental_listing_agent.Base.Result.{Result, ok, err, human_action_required}
use nyc_rental_listing_agent.Enums.Human.{ActorType}

abbrev pub require_human : ActorType → Result (Unit {0})
require_human ActorType.human = ok tt
require_human ActorType.system = err human_action_required
