-- ===== src/Memory/WellFormed/Distinct.antt =====
-- Every map of a `MemoryState` holds each of its keys once.
use authmodules.Prelude.{text_discrete}
use authmodules.JsMap.{keys}
use authmodules.JsMap.Order.{IsDistinct, set-IsDistinct}
use authmodules.Memory.State.{MemoryState, create_empty_state, token_key_discrete}
use authmodules.Memory.Steps.{Step, Steps, done, more}

pub record AllDistinct (s : MemoryState) : Type 0 where
  pub accounts : IsDistinct text_discrete (keys s.accounts)
  pub identities : IsDistinct text_discrete (keys s.identities)
  pub identity_subjects : IsDistinct text_discrete (keys s.identity_subjects)
  pub credentials : IsDistinct text_discrete (keys s.credentials)
  pub credentials_by_identity : IsDistinct text_discrete (keys s.credentials_by_identity)
  pub sessions : IsDistinct text_discrete (keys s.sessions)
  pub sessions_by_token_hash : IsDistinct token_key_discrete (keys s.sessions_by_token_hash)
  pub challenges : IsDistinct text_discrete (keys s.challenges)

pub AllDistinct-empty : AllDistinct create_empty_state
AllDistinct-empty = record {
  accounts = tt;
  identities = tt;
  identity_subjects = tt;
  credentials = tt;
  credentials_by_identity = tt;
  sessions = tt;
  sessions_by_token_hash = tt;
  challenges = tt;
}

pub Step-AllDistinct : {s t : MemoryState} → Step s t → AllDistinct s → AllDistinct t
Step-AllDistinct {s} (Step.new_account ref r valid new) d = record {
  accounts = set-IsDistinct text_discrete _ _ s.accounts d.accounts;
  identities = d.identities;
  identity_subjects = d.identity_subjects;
  credentials = d.credentials;
  credentials_by_identity = d.credentials_by_identity;
  sessions = d.sessions;
  sessions_by_token_hash = d.sessions_by_token_hash;
  challenges = d.challenges;
}
Step-AllDistinct {s} (Step.set_account k ref c r there move) d = record {
  accounts = set-IsDistinct text_discrete _ _ s.accounts d.accounts;
  identities = d.identities;
  identity_subjects = d.identity_subjects;
  credentials = d.credentials;
  credentials_by_identity = d.credentials_by_identity;
  sessions = d.sessions;
  sessions_by_token_hash = d.sessions_by_token_hash;
  challenges = d.challenges;
}
Step-AllDistinct {s} (Step.new_identity ref r valid owner new free) d = record {
  accounts = d.accounts;
  identities = set-IsDistinct text_discrete _ _ s.identities d.identities;
  identity_subjects = set-IsDistinct text_discrete _ _ s.identity_subjects d.identity_subjects;
  credentials = d.credentials;
  credentials_by_identity = d.credentials_by_identity;
  sessions = d.sessions;
  sessions_by_token_hash = d.sessions_by_token_hash;
  challenges = d.challenges;
}
Step-AllDistinct {s} (Step.set_identity k ref c r there move) d = record {
  accounts = d.accounts;
  identities = set-IsDistinct text_discrete _ _ s.identities d.identities;
  identity_subjects = d.identity_subjects;
  credentials = d.credentials;
  credentials_by_identity = d.credentials_by_identity;
  sessions = d.sessions;
  sessions_by_token_hash = d.sessions_by_token_hash;
  challenges = d.challenges;
}
Step-AllDistinct {s} (Step.new_credential ref r valid owner fits new free) d = record {
  accounts = d.accounts;
  identities = d.identities;
  identity_subjects = d.identity_subjects;
  credentials = set-IsDistinct text_discrete _ _ s.credentials d.credentials;
  credentials_by_identity =
      set-IsDistinct text_discrete _ _ s.credentials_by_identity d.credentials_by_identity;
  sessions = d.sessions;
  sessions_by_token_hash = d.sessions_by_token_hash;
  challenges = d.challenges;
}
Step-AllDistinct {s} (Step.set_credential k ref c r there move) d = record {
  accounts = d.accounts;
  identities = d.identities;
  identity_subjects = d.identity_subjects;
  credentials = set-IsDistinct text_discrete _ _ s.credentials d.credentials;
  credentials_by_identity = d.credentials_by_identity;
  sessions = d.sessions;
  sessions_by_token_hash = d.sessions_by_token_hash;
  challenges = d.challenges;
}
Step-AllDistinct {s} (Step.new_session ref r hash valid owner hashed new free) d = record {
  accounts = d.accounts;
  identities = d.identities;
  identity_subjects = d.identity_subjects;
  credentials = d.credentials;
  credentials_by_identity = d.credentials_by_identity;
  sessions = set-IsDistinct text_discrete _ _ s.sessions d.sessions;
  sessions_by_token_hash =
      set-IsDistinct token_key_discrete _ _ s.sessions_by_token_hash d.sessions_by_token_hash;
  challenges = d.challenges;
}
Step-AllDistinct {s} (Step.set_session k ref c r there move) d = record {
  accounts = d.accounts;
  identities = d.identities;
  identity_subjects = d.identity_subjects;
  credentials = d.credentials;
  credentials_by_identity = d.credentials_by_identity;
  sessions = set-IsDistinct text_discrete _ _ s.sessions d.sessions;
  sessions_by_token_hash = d.sessions_by_token_hash;
  challenges = d.challenges;
}
Step-AllDistinct {s} (Step.new_challenge ref r valid new) d = record {
  accounts = d.accounts;
  identities = d.identities;
  identity_subjects = d.identity_subjects;
  credentials = d.credentials;
  credentials_by_identity = d.credentials_by_identity;
  sessions = d.sessions;
  sessions_by_token_hash = d.sessions_by_token_hash;
  challenges = set-IsDistinct text_discrete _ _ s.challenges d.challenges;
}
Step-AllDistinct {s} (Step.set_challenge k ref c r there move) d = record {
  accounts = d.accounts;
  identities = d.identities;
  identity_subjects = d.identity_subjects;
  credentials = d.credentials;
  credentials_by_identity = d.credentials_by_identity;
  sessions = d.sessions;
  sessions_by_token_hash = d.sessions_by_token_hash;
  challenges = set-IsDistinct text_discrete _ _ s.challenges d.challenges;
}

pub Steps-AllDistinct : {s t : MemoryState} → Steps s t → AllDistinct s → AllDistinct t
Steps-AllDistinct done d = d
Steps-AllDistinct (more x xs) d = Steps-AllDistinct xs (Step-AllDistinct x d)
