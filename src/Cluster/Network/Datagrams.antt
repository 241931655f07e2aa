-- ===== src/Cluster/Network/Datagrams.antt =====
-- Write datagrams, what it means that one is stored, and choices from lists of them.
use iot_drive.Shared.{
  ℕ, zero, suc, ◌+◌, ◌^◌, ◌≤◌, ◌<◌, ◌≡◌, ◌⊎◌, List, [], ◌∷◌, Option, none, some, All, length,
}
use iot_drive.Message.Identity.{Uid}
use iot_drive.Message.{new_write_msg}
use iot_drive.Message.Format.{encode, UidFits}
use iot_drive.Storage.{slice}
use iot_drive.Cluster.Network.{Net, behind, pick}

-- A write datagram of a command: its minion, the place there, the bytes, and its UID.
pub record Sent : Type 0 where
  pub minion : ℕ
  pub offset : ℕ
  pub bytes : List ℕ
  pub uid : Uid

pub record IsSent (s : Sent) : Type 0 where
  pub uid_fits : UidFits s.uid
  pub offset_fits : s.offset < 2 ^ 64
  pub short : length s.bytes < 2 ^ 32
  pub are_bytes : All (λ b. b < 256) s.bytes

abbrev pub datagram : Sent → ℕ × List ℕ
datagram s = (s.minion, encode (new_write_msg s.offset (length s.bytes) (some s.bytes) s.uid))

abbrev pub content_of : Net → ℕ → ℕ → ℕ
content_of c k = (c.minions k).file.content

-- The bytes of a datagram are in the file of its minion.
abbrev pub Stored : Sent → (ℕ → ℕ → ℕ) → Type 0
Stored s files = slice (files s.minion) s.offset (length s.bytes) ≡ s.bytes

abbrev pub Disjoint : Sent → Sent → Type 0
Disjoint s t = (s.offset + length s.bytes ≤ t.offset) ⊎ (t.offset + length t.bytes ≤ s.offset)

abbrev pub Picked {ℓ} : {A : Type ℓ} → (A → Type 0) → Option (A × List A) → Type 0
Picked P none = Unit
Picked P (some (y, ys)) = P y × All P ys

pub All-pick {ℓ} :
    {A : Type ℓ} (P : A → Type 0) (i : ℕ) (xs : List A) → All P xs → Picked P (pick i xs)
unfolding pick
All-pick P i [] h = tt
All-pick P zero (x ∷ xs) h = h
All-pick P (suc i) (x ∷ xs) h = by_rest (pick i xs) (All-pick P i xs h.1)
  where
    by_rest : (o : Option (_ × List _)) → Picked P o → Picked P (behind x o)
    by_rest none k = tt
    by_rest (some (y, ys)) k = (k.0, (h.0, k.1))

pub All-map {ℓ} :
    {A : Type ℓ} (P Q : A → Type 0) → ((a : A) → P a → Q a) → (xs : List A) → All P xs → All Q xs
All-map P Q f [] h = tt
All-map P Q f (x ∷ xs) h = (f x h.0, All-map P Q f xs h.1)
