-- ===== src/Cluster/Serve.antt =====
-- One datagram of a command and its answer, in a cluster that is in order.
use iot_drive.Shared.{
  ℕ, ◌+◌, ◌*◌, ◌^◌, ◌≤◌, ◌<◌, ◌≡◌, refl, Bool, true, List, ◌∷◌, [], ◌++◌, some, ok, arith, All,
  length, ◌==◌, if◌then◌else◌, subst, sym, inl, inr, Bool-cases,
}
use iot_drive.Raid.{mb}
use iot_drive.Message.Identity.{Uid}
use iot_drive.Message.{new_read_msg, new_write_msg, new_minion_read_msg}
use iot_drive.Message.Format.{encode, UidFits}
use iot_drive.Storage.{slice}
use iot_drive.Command.{Minion}
use iot_drive.Storage.Slices.{write_at-lt, length-slice}
use iot_drive.Storage.Fresh.{IsReady}
use iot_drive.Response.{register_response}
use iot_drive.Proxy.{Memory}
use iot_drive.Proxy.ResponseProxy
use iot_drive.Proxy.Delivery.{IsTimely, tick}
use iot_drive.Command.Requests.{ProcessFits, tick-ProcessFits, read_msg-IsValid, write_msg-IsValid}
use iot_drive.Command.Answers.{
  written, written-IsReady, content-written, minion_read_msg-IsValid, slice-All,
}
use iot_drive.Command.Serving.{
  minion_serve-write, minion_serve-read, get_args_key-write_answer, get_args_key-read_answer,
}
use iot_drive.Cluster.{Cluster, update, deliver}

-- A minion whose clock and file can be used.
pub record Works (m : Minion) : Type 0 where
  pub timely : IsTimely m.process
  pub ready : IsReady m.file
  pub bytes : (i : ℕ) → m.file.content i < 256

pub record Runs (c : Cluster) : Type 0 where
  pub fits : ProcessFits c.master.process
  pub works : (k : ℕ) → Works (c.minions k)

-- The cluster after a write datagram has been served and answered.
abbrev pub after_write : ℕ → ℕ → List ℕ → Uid → Cluster → Cluster
after_write k offset bs uid c = record {
  master = record (c.master) {
    process = tick c.master.process;
    watchlist = register_response uid c.master.watchlist;
  };
  minions = update c.minions k (record {
    process = tick (c.minions k).process;
    file = written offset bs (c.minions k).file;
  });
}

abbrev pub after_read : ℕ → ℕ → ℕ → Uid → Cluster → Cluster
after_read k offset size uid c = record {
  master = record {
    process = tick c.master.process;
    watchlist = register_response uid c.master.watchlist;
    tcp_out = c.master.tcp_out ++ slice (c.minions k).file.content offset size ∷ [];
  };
  minions = update c.minions k (record {
    process = tick (c.minions k).process;
    file = record ((c.minions k).file) { pos = 0 };
  });
}

pub deliver-write :
    (debug : Bool) (mem : Memory) (k offset : ℕ) (bs : List ℕ) (uid : Uid) (c : Cluster)
    → Runs c
    → UidFits uid
    → offset < 2 ^ 64
    → length bs < 2 ^ 32
    → All (λ b. b < 256) bs
    → deliver debug mem (k, encode (new_write_msg offset (length bs) (some bs) uid)) c
      ≡ ok (after_write k offset bs uid c)
unfolding deliver
deliver-write debug mem k offset bs uid c r u o n b = rw (
  minion_serve-write debug mem (c.minions k) (r.works k).ready (r.works k).timely offset bs uid
      (write_msg-IsValid offset (length bs) bs uid u o n refl b) u,
  get_args_key-write_answer debug mem c.master r.fits.timely uid u,
)

pub all-update {ℓ} :
    {A : Type ℓ} (P : A → Type 0) (f : ℕ → A) (k : ℕ) (v : A)
    → ((j : ℕ) → P (f j))
    → P v
    → (j : ℕ) → P (update f k v j)
all-update P f k v h hv j = elim (Bool-cases (j == k)) [
  | inl e ↦ subst (λ b. P (if b then v else f j)) (sym e) hv
  | inr e ↦ subst (λ b. P (if b then v else f j)) (sym e) (h j)
]

pub after_write-Runs :
    (k offset : ℕ) (bs : List ℕ) (uid : Uid) (c : Cluster)
    → All (λ b. b < 256) bs
    → Runs c
    → Runs (after_write k offset bs uid c)
after_write-Runs k offset bs uid c b r = record {
  fits = tick-ProcessFits c.master.process r.fits;
  works = all-update Works c.minions k _ r.works (record {
    timely = (r.works k).timely;
    ready = written-IsReady offset bs (c.minions k).file (r.works k).ready;
    bytes =
        subst (λ f. (i : ℕ) → f i < 256)
          (sym (content-written offset bs (c.minions k).file (r.works k).ready))
          (write_at-lt 256 (c.minions k).file.content offset bs (r.works k).bytes b);
  });
}

pub deliver-read :
    (debug : Bool) (mem : Memory) (k offset size : ℕ) (uid : Uid) (c : Cluster)
    → Runs c
    → UidFits uid
    → offset < 2 ^ 64
    → size < 2 ^ 32
    → offset + size ≤ 8 * mb
    → deliver debug mem (k, encode (new_read_msg offset size uid)) c
      ≡ ok (after_read k offset size uid c)
unfolding deliver
deliver-read debug mem k offset size uid c r u o n inside =
    let m = c.minions k in
    let e = length-slice m.file.content offset size in
    let bs = slice m.file.content offset size in
    let answer =
      subst
        (λ n.
          ResponseProxy.get_args_key debug mem (encode (new_minion_read_msg uid true (some bs) n))
            c.master
          ≡ ok (
            true,
            record {
              process = tick c.master.process;
              watchlist = register_response uid c.master.watchlist;
              tcp_out = c.master.tcp_out ++ bs ∷ [];
            },
          ))
        e
        (get_args_key-read_answer debug mem c.master r.fits.timely uid bs (
          minion_read_msg-IsValid uid bs (length bs) u (omega (arith, e)) refl
            (slice-All m.file.content offset size (r.works k).bytes))) in
    rw (
      minion_serve-read debug mem m (r.works k).ready (r.works k).timely offset size uid
          (read_msg-IsValid offset size uid u o n) u n (omega (arith, (r.works k).ready.holds))
          (r.works k).bytes,
      answer,
    )

pub after_read-Runs :
    (k offset size : ℕ) (uid : Uid) (c : Cluster) → Runs c → Runs (after_read k offset size uid c)
after_read-Runs k offset size uid c r = record {
  fits = tick-ProcessFits c.master.process r.fits;
  works = all-update Works c.minions k _ r.works (record {
    timely = (r.works k).timely;
    ready = record {
      is_good = (r.works k).ready.is_good;
      has_run = (r.works k).ready.has_run;
      holds = (r.works k).ready.holds;
    };
    bytes = (r.works k).bytes;
  });
}
