-- ===== src/Cluster/Network/Lossy.antt =====
-- Writes under way at the same time, over a network that loses, repeats and reorders datagrams.
use iot_drive.Shared.{
  ℕ, ◌<◌, ◌≡◌, ◌≢◌, refl, sym, subst, Bool, true, false, List, [], ◌∷◌, Option, none, some, Outcome,
  ok, arith, All,
}
use native.Mathlib.Decide.{ℕ_discrete}
use iot_drive.Response.{register_response}
use iot_drive.Response.Refinement.{answered, answered-register_response}
use iot_drive.Proxy.{Memory}
use iot_drive.Proxy.ResponseProxy.{Master}
use iot_drive.Proxy.Delivery.{tick}
use iot_drive.Command.Requests.{ProcessFits, tick-ProcessFits}
use iot_drive.Command.Serving.{get_args_key-write_answer}
use iot_drive.Cluster.Serve.{Works}
use iot_drive.Cluster.Network.{
  Net, Event, serves, takes, loses_request, repeats_request, loses_answer, repeats_answer, pick,
  serve_request, take_answer, step, run,
}
use iot_drive.Cluster.Network.Datagrams.{
  Sent, IsSent, datagram, content_of, Stored, Disjoint, Picked, All-pick, All-map,
}
use iot_drive.Cluster.Network.Served.{
  answer_of, served, Stored-served, Stored-kept, serve_request-datagram, served-Works,
}

module _ (debug : Bool) (mem : Memory) (n : ℕ) (sent : ℕ → Sent)
    (sent_well : (i : ℕ) → i < n → IsSent (sent i))
    (disjoint : (i j : ℕ)
      → i < n
      → j < n
      → i ≢ j
      → (sent i).minion ≡ (sent j).minion
      → Disjoint (sent i) (sent j))
    (own_uid : (i j : ℕ)
      → i < n
      → j < n
      → i ≢ j
      → (sent i).uid.unique_counter ≢ (sent j).uid.unique_counter) where
  abbrev IsRequest : ℕ × List ℕ → Type 0
  IsRequest d = (i : ℕ) × (i < n) × (d ≡ datagram (sent i))

  abbrev IsAnswer : (ℕ → ℕ → ℕ) → List ℕ → Type 0
  IsAnswer files packet = (i : ℕ) × (i < n) × (packet ≡ answer_of (sent i)) × Stored (sent i) files

  -- Every answer, on its way or registered, is of bytes that are stored.
  record Safe (c : Net) : Type 0 where
    works : (k : ℕ) → Works (c.minions k)
    fits : ProcessFits c.master.process
    asked : All IsRequest c.requests
    replied : All (IsAnswer (content_of c)) c.answers
    watched :
        (i : ℕ)
        → i < n
        → answered c.master.watchlist (sent i).uid.unique_counter ≡ true
        → Stored (sent i) (content_of c)

  -- What serving one datagram does to the bytes of another, or to its own.
  Stored-after :
      (i j : ℕ) (c : Net)
      → i < n
      → j < n
      → Safe c
      → Stored (sent j) (content_of c)
      → Stored (sent j) (content_of (served (sent i) c))
  Stored-after i j c i_lt j_lt s h = elim (ℕ_discrete i j) [
    | yes e ↦
        subst (λ j. Stored (sent j) (content_of (served (sent i) c))) e
          (Stored-served (sent i) c s.works)
    | no ne ↦ Stored-kept (sent i) c s.works (sent j) (disjoint i j i_lt j_lt ne) h
  ]

  -- What a step promises.
  abbrev StepsTo : Outcome Net → Type 0
  StepsTo o = (c' : Net) × (o ≡ ok c') × Safe c'

  serve_request-Safe :
      (i : ℕ) (c : Net) → i < n → Safe c → StepsTo (serve_request debug mem (datagram (sent i)) c)
  serve_request-Safe i c lt s =
      let w = sent i in
      (
        served w c,
        serve_request-datagram w c s.works debug mem (sent_well i lt),
        record {
          works = served-Works w c s.works (sent_well i lt);
          fits = s.fits;
          asked = s.asked;
          replied = (
            (i, lt, refl, Stored-served w c s.works),
            All-map (IsAnswer (content_of c)) (IsAnswer (content_of (served w c)))
                (λ r (j, j_lt, e, h). (j, j_lt, e, Stored-after i j c lt j_lt s h)) c.answers
                s.replied,
          );
          watched = λ j j_lt e. Stored-after i j c lt j_lt s (s.watched j j_lt e);
        },
      )

  take_answer-Safe :
      (i : ℕ) (c : Net)
      → i < n
      → Safe c
      → Stored (sent i) (content_of c)
      → StepsTo (take_answer debug mem (answer_of (sent i)) c)
  unfolding take_answer
  take_answer-Safe i c lt s stored =
      let m : Master = record (c.master) {
        process = tick c.master.process;
        watchlist = register_response (sent i).uid c.master.watchlist;
      } in
      (
        record c { master = m },
        rw
            (get_args_key-write_answer debug mem c.master s.fits.timely (sent i).uid
              (sent_well i lt).uid_fits)
            refl,
        record {
          works = s.works;
          fits = tick-ProcessFits c.master.process s.fits;
          asked = s.asked;
          replied = s.replied;
          watched = λ j j_lt e. elim (ℕ_discrete i j) [
            | yes same ↦ subst (λ j. Stored (sent j) (content_of c)) same stored
            | no ne ↦
                let other = own_uid i j lt j_lt ne in
                s.watched j j_lt (
                  ground (
                    arith,
                    e,
                    other,
                    answered-register_response (sent i).uid c.master.watchlist
                        (sent j).uid.unique_counter,
                  ))
          ];
        },
      )

  Safe-requests :
      (c : Net) (requests : List (ℕ × List ℕ))
      → Safe c
      → All IsRequest requests
      → Safe (record c { requests = requests })
  Safe-requests c requests s h = record {
    works = s.works;
    fits = s.fits;
    asked = h;
    replied = s.replied;
    watched = s.watched;
  }

  Safe-answers :
      (c : Net) (answers : List (List ℕ))
      → Safe c
      → All (IsAnswer (content_of c)) answers
      → Safe (record c { answers = answers })
  Safe-answers c answers s h = record {
    works = s.works;
    fits = s.fits;
    asked = s.asked;
    replied = h;
    watched = s.watched;
  }

  -- A step that begins with a choice from a list.
  pick-Safe :
      {A : Type 0} (P : A → Type 0) (c : Net) (act : A × List A → Outcome Net)
      → Safe c
      → ((y : A) (ys : List A) → P y → All P ys → StepsTo (act (y, ys)))
      → (o : Option (A × List A)) → Picked P o
      → StepsTo (elim o [ none ↦ ok c | some r ↦ act r ])
  pick-Safe P c act s acts none h = (c, refl, s)
  pick-Safe P c act s acts (some (y, ys)) (h, hs) = acts y ys h hs

  step-Safe : (e : Event) (c : Net) → Safe c → StepsTo (step debug mem e c)
  unfolding step
  step-Safe (serves i) c s =
      pick-Safe IsRequest c (λ r. serve_request debug mem (r.0) (record c { requests = r.1 })) s
        (λ d rest (j, lt, e) hs.
          subst (λ d. StepsTo (serve_request debug mem d (record c { requests = rest }))) (sym e)
            (serve_request-Safe j (record c { requests = rest }) lt (Safe-requests c rest s hs)))
        (pick i c.requests) (All-pick IsRequest i c.requests s.asked)
  step-Safe (takes i) c s =
      pick-Safe (IsAnswer (content_of c)) c
        (λ r. take_answer debug mem (r.0) (record c { answers = r.1 })) s
        (λ packet rest (j, lt, e, stored) hs.
          subst (λ d. StepsTo (take_answer debug mem d (record c { answers = rest }))) (sym e)
            (take_answer-Safe j (record c { answers = rest }) lt (Safe-answers c rest s hs) stored))
        (pick i c.answers) (All-pick (IsAnswer (content_of c)) i c.answers s.replied)
  step-Safe (loses_request i) c s =
      pick-Safe IsRequest c (λ r. ok (record c { requests = r.1 })) s
        (λ d rest h hs. (record c { requests = rest }, refl, Safe-requests c rest s hs))
        (pick i c.requests) (All-pick IsRequest i c.requests s.asked)
  step-Safe (repeats_request i) c s =
      pick-Safe IsRequest c (λ r. ok (record c { requests = r.0 ∷ c.requests })) s
        (λ d rest h hs. (
          record c { requests = d ∷ c.requests },
          refl,
          Safe-requests c (d ∷ c.requests) s (h, s.asked),
        ))
        (pick i c.requests) (All-pick IsRequest i c.requests s.asked)
  step-Safe (loses_answer i) c s =
      pick-Safe (IsAnswer (content_of c)) c (λ r. ok (record c { answers = r.1 })) s
        (λ packet rest h hs. (record c { answers = rest }, refl, Safe-answers c rest s hs))
        (pick i c.answers) (All-pick (IsAnswer (content_of c)) i c.answers s.replied)
  step-Safe (repeats_answer i) c s =
      pick-Safe (IsAnswer (content_of c)) c (λ r. ok (record c { answers = r.0 ∷ c.answers })) s
        (λ packet rest h hs. (
          record c { answers = packet ∷ c.answers },
          refl,
          Safe-answers c (packet ∷ c.answers) s (h, s.replied),
        ))
        (pick i c.answers) (All-pick (IsAnswer (content_of c)) i c.answers s.replied)

  run-Safe : (es : List Event) (c : Net) → Safe c → StepsTo (run debug mem es c)
  unfolding run
  run-Safe [] c s = (c, refl, s)
  run-Safe (e ∷ es) c s =
      let (d, one, sd) = step-Safe e c s in
      let (c', rest, s') = run-Safe es d sd in (c', rw (one, rest) refl, s')

  -- Any number of write datagrams under way at the same time, to places of which no two of one
  -- minion overlap and each under a UID of its own, and a network that serves, loses, repeats and
  -- reorders requests and answers in any way, with minions that run the command of one datagram
  -- before the next: no step fails, and a UID that is answered at the end is that of a datagram whose
  -- bytes are in the file of its minion. At the start no answer is under way or registered, the
  -- times are ones that a UID accepts, and the files of the minions are in use.
  pub run-Stored :
      (c : Net) (es : List Event)
      → ((k : ℕ) → Works (c.minions k))
      → ProcessFits c.master.process
      → All IsRequest c.requests
      → c.answers ≡ []
      → ((i : ℕ) → i < n → answered c.master.watchlist (sent i).uid.unique_counter ≡ false)
      → (c' : Net) × (run debug mem es c ≡ ok c')
        × ((i : ℕ)
            → i < n
            → answered c'.master.watchlist (sent i).uid.unique_counter ≡ true
            → Stored (sent i) (content_of c'))
  run-Stored c es works fits asked quiet unanswered =
      let (c', ran, s) = run-Safe es c (record {
        works = works;
        fits = fits;
        asked = asked;
        replied = subst (All (IsAnswer (content_of c))) (sym quiet) tt;
        watched = λ i lt e. absurd (let o = unanswered i lt in cc);
      }) in
      (c', ran, s.watched)
