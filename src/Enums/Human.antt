-- ===== src/Enums/Human.antt =====
-- The enumerations of contracts/enums.py that human decisions use. Each is stored as its text; two members
-- are the same exactly when their texts are.
use Prim.Native.String.{String}

pub data SelectionStatus : Type 0 where
  selected not_selected removed : SelectionStatus

unfoldable pub selection_value : SelectionStatus → String
selection_value SelectionStatus.selected = "SELECTED"
selection_value SelectionStatus.not_selected = "NOT_SELECTED"
selection_value SelectionStatus.removed = "REMOVED"

pub data ShortlistEntryStatus : Type 0 where
  included excluded removed : ShortlistEntryStatus

unfoldable pub entry_value : ShortlistEntryStatus → String
entry_value ShortlistEntryStatus.included = "INCLUDED"
entry_value ShortlistEntryStatus.excluded = "EXCLUDED"
entry_value ShortlistEntryStatus.removed = "REMOVED"

pub data ActorType : Type 0 where
  human system : ActorType
