-- ===== src/Identity/Tests.antt =====
-- The theorems on identity/identity.go applied to concrete files.
use mediamanager.Base.{◌≡◌, ◌↔◌, [], ◌∷◌, arith, Text, ℕ_eq, Text_eq, Pair_eq, ok}
use mediamanager.Identity.{message, sparse_file}
use mediamanager.Identity.Message.{SameExtents, message_iff, sparse_file-total}

message_iff_example : (message (1 ∷ []) 1 ≡ message (2 ∷ []) 1) ↔ SameExtents (1 ∷ []) (2 ∷ [])
message_iff_example = message_iff (1 ∷ []) (2 ∷ []) (omega arith) (omega arith)

sparse_file-total_example : (id : Text) × (sparse_file (λ bs. bs) (7 ∷ []) ≡ ok (id, 1))
sparse_file-total_example = sparse_file-total (λ bs. bs) (7 ∷ [])
