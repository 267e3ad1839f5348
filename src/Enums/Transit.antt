-- ===== src/Enums/Transit.antt =====
-- The enumerations of contracts/enums.py for transit. Each is stored as its text; two members are the
-- same exactly when their texts are.
pub data TransitMode : Type 0 where
  subway path bus rail ferry other : TransitMode

pub data UsefulnessStatus : Type 0 where
  useful candidate not_useful unresolved : UsefulnessStatus
