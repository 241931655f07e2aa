-- ===== src/Cluster/Delivered.antt =====
-- The two datagrams of a write, served in either order: which bytes of the block files they change.
use iot_drive.Shared.{ℕ, ◌^◌, ◌<◌, ◌≡◌, ◌≢◌, refl, ap, ◌∙◌, true, List, arith, All, length}
use iot_drive.Raid.{memory}
use iot_drive.Raid.Placement.{primary, backup}
use iot_drive.Message.Identity.{Uid}
use iot_drive.Response.Refinement.{answered, answered_last, answered_before}
use iot_drive.Storage.{write_at}
use iot_drive.Proxy.Delivery.{tick}
use iot_drive.Command.Requests.{tick-ProcessFits, registered}
use iot_drive.Command.Answers.{content-written}
use iot_drive.Cluster.{Cluster, update}
use iot_drive.Cluster.Mirror.{Wrote}
use iot_drive.Cluster.Serve.{Runs, after_write, after_write-Runs}

-- The block files of the three minions.
abbrev pub files : Cluster → ℕ → ℕ → ℕ
files c k = (c.minions k).file.content

-- The cluster once the commands have registered their UIDs.
abbrev pub issued_read : Cluster → Cluster
issued_read c = record c { master = registered c.master }

abbrev pub issued_write : Cluster → Cluster
issued_write c = record c { master = registered (registered c.master) }

pub update_at {ℓ} : {A : Type ℓ} (f : ℕ → A) (k : ℕ) (v : A) → update f k v k ≡ v
update_at f k v = ground arith

pub update_else {ℓ} : {A : Type ℓ} (f : ℕ → A) (k j : ℕ) (v : A) → j ≢ k → update f k v j ≡ f j
update_else f k j v ne = ground arith

pub issued_read-Runs : (c : Cluster) → Runs c → Runs (issued_read c)
issued_read-Runs c r = record { fits = tick-ProcessFits c.master.process r.fits; works = r.works }

pub issued_write-Runs : (c : Cluster) → Runs c → Runs (issued_write c)
issued_write-Runs c r = record {
  fits = tick-ProcessFits (tick c.master.process) (tick-ProcessFits c.master.process r.fits);
  works = r.works;
}

-- Two datagrams one after the other.
abbrev pub after_two : ℕ → ℕ → Uid → ℕ → ℕ → Uid → List ℕ → Cluster → Cluster
after_two k p u l q v bs c = after_write l q bs v (after_write k p bs u c)

-- The block files after both, if the datagrams were for different minions.
files-after_write-same :
    (k p : ℕ) (bs : List ℕ) (u : Uid) (c : Cluster)
    → Runs c
    → files (after_write k p bs u c) k ≡ write_at (files c k) p bs
files-after_write-same k p bs u c r =
    ap (λ m. m.file.content) (update_at c.minions k _)
    ∙ content-written p bs (c.minions k).file (r.works k).ready

files-after_write-other :
    (k p j : ℕ) (bs : List ℕ) (u : Uid) (c : Cluster)
    → j ≢ k
    → files (after_write k p bs u c) j ≡ files c j
files-after_write-other k p j bs u c ne = ap (λ m. m.file.content) (update_else c.minions k j _ ne)

-- What a write command leaves once both answers are in.
pub record Delivered (offset : ℕ) (bs : List ℕ) (fs : ℕ → ℕ → ℕ) (out : List (List ℕ)) (u v : Uid)
    (c' : Cluster) : Type 0 where
  pub still_runs : Runs c'
  pub wrote : Wrote offset bs fs (files c')
  pub og_answered : answered c'.master.watchlist u.unique_counter ≡ true
  pub backup_answered : answered c'.master.watchlist v.unique_counter ≡ true
  pub untold : c'.master.tcp_out ≡ out

module _ (offset : ℕ) (bs : List ℕ) (inside : offset < memory) (short : length bs < 2 ^ 32)
    (b : All (λ b. b < 256) bs) where
  Wrote-primary_first :
      (u v : Uid) (c : Cluster)
      → Runs c
      → Wrote offset bs (files c) (
          files (
            after_two
              (primary offset).minion
              (primary offset).offset
              u
              (backup offset).minion
              (backup offset).offset
              v
              bs
              c))
  Wrote-primary_first u v c r =
      let k = (primary offset).minion in
      let l = (backup offset).minion in
      let p = (primary offset).offset in
      let q = (backup offset).offset in
      let c₁ = after_write k p bs u c in
      record {
        at_primary =
            files-after_write-other l q k bs v c₁ (omega arith)
            ∙ files-after_write-same k p bs u c r;
        at_backup =
            files-after_write-same l q bs v c₁ (after_write-Runs k p bs u c b r)
            ∙ ap (λ f. write_at f q bs) (files-after_write-other k p l bs u c (omega arith));
        elsewhere = λ j f g.
            files-after_write-other l q j bs v c₁ g ∙ files-after_write-other k p j bs u c f;
      }

  Wrote-backup_first :
      (u v : Uid) (c : Cluster)
      → Runs c
      → Wrote offset bs (files c) (
          files (
            after_two
              (backup offset).minion
              (backup offset).offset
              v
              (primary offset).minion
              (primary offset).offset
              u
              bs
              c))
  Wrote-backup_first u v c r =
      let k = (primary offset).minion in
      let l = (backup offset).minion in
      let p = (primary offset).offset in
      let q = (backup offset).offset in
      let c₁ = after_write l q bs v c in
      record {
        at_primary =
            files-after_write-same k p bs u c₁ (after_write-Runs l q bs v c b r)
            ∙ ap (λ f. write_at f p bs) (files-after_write-other l q k bs v c (omega arith));
        at_backup =
            files-after_write-other k p l bs u c₁ (omega arith)
            ∙ files-after_write-same l q bs v c r;
        elsewhere = λ j f g.
            files-after_write-other k p j bs u c₁ f ∙ files-after_write-other l q j bs v c g;
      }

  pub Delivered-primary_first :
      (u v : Uid) (c : Cluster)
      → Runs c
      → Delivered offset bs (files c) c.master.tcp_out u v (
          after_two
            (primary offset).minion
            (primary offset).offset
            u
            (backup offset).minion
            (backup offset).offset
            v
            bs
            c)
  Delivered-primary_first u v c r = record {
    still_runs = after_write-Runs _ _ bs v _ b (after_write-Runs _ _ bs u c b r);
    wrote = Wrote-primary_first u v c r;
    og_answered = answered_before u v c.master.watchlist;
    backup_answered = answered_last v _;
    untold = refl;
  }

  pub Delivered-backup_first :
      (u v : Uid) (c : Cluster)
      → Runs c
      → Delivered offset bs (files c) c.master.tcp_out u v (
          after_two
            (backup offset).minion
            (backup offset).offset
            v
            (primary offset).minion
            (primary offset).offset
            u
            bs
            c)
  Delivered-backup_first u v c r = record {
    still_runs = after_write-Runs _ _ bs u _ b (after_write-Runs _ _ bs v c b r);
    wrote = Wrote-backup_first u v c r;
    og_answered = answered_last u _;
    backup_answered = answered_before v u c.master.watchlist;
    untold = refl;
  }
