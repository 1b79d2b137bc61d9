-- ===== src/Clients/Sequence.antt =====
-- src/clients/SparkplugClient.cpp: the sequence numbers of payloads, and the birth and death numbers.
use cpp_sparkplug.Prelude.{
  ap₂, ℕ, zero, take, codes, Bool, ◌++◌, ◌&&◌, refl, sym, Bool-cases, false, inl, inr, append-nil,
  suc, ◌+◌, ◌%◌, ◌<◌, Bytes, true, false, some, List, [], ◌∷◌, ◌≡◌, ap, ◌∙◌, arith, if◌then◌else◌,
  length, All, foldl,
}
use mathlib.Core.List.{foldl-append}
use cpp_sparkplug.Tahu.{Tahu, int64}
use cpp_sparkplug.Metric.{Metric, report}
use cpp_sparkplug.Metric
use cpp_sparkplug.Metric.Simple.{int64_metric}
use cpp_sparkplug.Publishable.{Publishable, add_to_payload}
use cpp_sparkplug.Publishable.Messages.{reported, add_to_payload-reported}
use cpp_sparkplug.Clients.State.{
  Source, node, device, is_node, same_source, same_source→eq, PublishRequest,
}
use cpp_sparkplug.Clients.{
  Context, initialize_payload, reset_sequence, set_state, prepare, is_node_birth, add_bd_seq,
  get_will_payload,
}

-- A birth of the node.
abbrev pub births_node : PublishRequest → Bool
births_node r = elim r.publisher [ node ↦ r.is_birth | device d ↦ false ]

module _ (t : Tahu) (int64_bytes : ℕ → Bytes) where
  -- The metric of the birth number.
  abbrev pub bd_seq_report : ℕ → ℕ → t.PayloadMetric
  bd_seq_report now bd_seq =
      t.set_timestamp (t.init_metric (codes "bdSeq") 0 int64 (take 8 (int64_bytes bd_seq)) 8) now

  -- What a message says: the reports of the publishable's metrics and, at the end of a birth of the
  -- node, the birth number. `clock` has the times from the payload's on.
  abbrev pub contents : PublishRequest → (ℕ → ℕ) → List Metric → ℕ → List t.PayloadMetric
  contents r clock ms bd_seq =
      reported t (λ i. clock (suc i)) 0 r.is_birth ms
      ++ (if births_node r then bd_seq_report (clock (suc (length ms))) bd_seq ∷ [] else [])

  abbrev pub payload : ℕ → PublishRequest → (ℕ → ℕ) → List Metric → ℕ → Bytes
  payload n r clock ms bd_seq = t.encode_payload (
      foldl t.add_metric_to_payload (t.new_payload (clock 0) (some n)) (contents r clock ms bd_seq))

  -- The payloads of requests, numbered from n on, of publishables with metrics `ms`.
  abbrev pub numbered : ℕ → (Source → List Metric) → ℕ → List PublishRequest → (ℕ → ℕ) → List Bytes
  numbered n ms bd_seq [] clock = []
  numbered n ms bd_seq (r ∷ rs) clock =
      payload (n % 256) r clock (ms r.publisher) bd_seq
      ∷ numbered (n + 1) ms bd_seq rs (λ i. clock (suc (i + length (ms r.publisher) + 1)))

  bd_seq_last :
      (b : Bool) (start : t.Payload) (said : List t.PayloadMetric) (now bd_seq : ℕ)
      → (if b
          then add_bd_seq t int64_bytes now bd_seq (foldl t.add_metric_to_payload start said)
          else foldl t.add_metric_to_payload start said)
        ≡ foldl t.add_metric_to_payload start
            (said ++ (if b then bd_seq_report now bd_seq ∷ [] else []))
  unfolding add_bd_seq Metric.add_to_payload report int64_metric
  bd_seq_last true start said now bd_seq =
      sym (foldl-append t.add_metric_to_payload start said (bd_seq_report now bd_seq ∷ []))
  bd_seq_last false start said now bd_seq =
      ap (foldl t.add_metric_to_payload start) (sym (append-nil said))

births_lem : (s : Source) (b : Bool) → is_node s && b ≡ elim s [ node ↦ b | device d ↦ false ]
births_lem node b = refl
births_lem (device d) b = refl

module _ (t : Tahu) (int64_bytes : ℕ → Bytes) {S : Type 0} where
  -- The number that a request's payload gets.
  abbrev pub sequence : PublishRequest → Context S → ℕ
  sequence r c = if is_node_birth r then 0 else c.client.payload_sequence

  -- The payloads of several requests, one after the other.
  unfoldable pub messages : List PublishRequest → Context S → List Bytes
  messages [] c = []
  messages (r ∷ rs) c = let (c', message) = prepare t int64_bytes r c in message ∷ messages rs c'

  prepare-sequence :
      (r : PublishRequest) (c : Context S)
      → (prepare t int64_bytes r c).0.client.payload_sequence ≡ (sequence r c + 1) % 256
  unfolding prepare
  prepare-sequence r c = ground arith

  prepare-payload :
      (r : PublishRequest) (c : Context S)
      → let p = c.publishables r.publisher in
        let body =
          foldl t.add_metric_to_payload
            (t.new_payload (c.clock 0) (some (sequence r c)))
            (reported t (λ i. c.clock (suc i)) 0 r.is_birth p.metrics) in
        (prepare t int64_bytes r c).1
        ≡ t.encode_payload (
            if is_node_birth r
            then add_bd_seq t int64_bytes (c.clock (suc (length p.metrics))) c.client.bd_seq body
            else body)
  unfolding prepare
  prepare-payload r c =
      let p = c.publishables r.publisher in
      ground (
        arith,
        ap (λ (x : Publishable × t.Payload). x.1)
            (add_to_payload-reported t (λ i. c.clock (suc i)) r.is_birth p
              (t.new_payload (c.clock 0) (some (sequence r c)))),
      )

  prepare-contents :
      (r : PublishRequest) (c : Context S)
      → (prepare t int64_bytes r c).1
        ≡ payload t int64_bytes
            (sequence r c)
            r
            c.clock
            (c.publishables r.publisher).metrics
            c.client.bd_seq
  prepare-contents r c =
      let ms = (c.publishables r.publisher).metrics in
      let start = t.new_payload (c.clock 0) (some (sequence r c)) in
      let said = reported t (λ i. c.clock (suc i)) 0 r.is_birth ms in
      let body = foldl t.add_metric_to_payload start said in
      let now = c.clock (suc (length ms)) in
      prepare-payload r c
      ∙ ap
          (λ b.
            t.encode_payload
              (if b then add_bd_seq t int64_bytes now c.client.bd_seq body else body))
          (births_lem r.publisher r.is_birth)
      ∙ ap t.encode_payload
          (bd_seq_last t int64_bytes (births_node r) start said now c.client.bd_seq)

  prepare-bd_seq :
      (r : PublishRequest) (c : Context S)
      → (prepare t int64_bytes r c).0.client.bd_seq ≡ c.client.bd_seq
  unfolding prepare
  prepare-bd_seq r c = ground arith

  prepare-metrics :
      (r : PublishRequest) (c : Context S) (s : Source)
      → ((prepare t int64_bytes r c).0.publishables s).metrics ≡ (c.publishables s).metrics
  unfolding prepare add_to_payload initialize_payload reset_sequence set_state
  prepare-metrics r c s = elim (Bool-cases (same_source r.publisher s)) [
    | inl here ↦
        ground
          (arith, here, ap (λ x. (c.publishables x).metrics) (same_source→eq r.publisher s here))
    | inr there ↦ ground (arith, there)
  ]

  prepare-clock :
      (r : PublishRequest) (c : Context S) (i : ℕ)
      → (prepare t int64_bytes r c).0.clock i
        ≡ c.clock (suc (i + length (c.publishables r.publisher).metrics + 1))
  unfolding prepare initialize_payload reset_sequence set_state
  prepare-clock r c i = elim (Bool-cases (is_node_birth r)) [
    | inl birth ↦ ground (arith, birth)
    | inr other ↦ ground (arith, other)
  ]

  messages_next :
      (r : PublishRequest) (rs : List PublishRequest) (n : ℕ) (ms : Source → List Metric)
      (c : Context S)
      → sequence r c ≡ n % 256
      → ((s : Source) → (c.publishables s).metrics ≡ ms s)
      → let c' = (prepare t int64_bytes r c).0 in
        messages rs c' ≡ numbered t int64_bytes (n + 1) ms c'.client.bd_seq rs c'.clock
        → messages (r ∷ rs) c ≡ numbered t int64_bytes n ms c.client.bd_seq (r ∷ rs) c.clock
  unfolding messages
  messages_next r rs n ms c number same later =
      ap₂ (◌∷◌)
        (prepare-contents r c
          ∙ ap₂ (λ k l. payload t int64_bytes k r c.clock l c.client.bd_seq) number
              (same r.publisher))
        (later
          ∙ ap₂ (λ b l. numbered t int64_bytes (n + 1) ms b rs l) (prepare-bd_seq r c)
              ((λ j i. prepare-clock r c i j)
                ∙ ap (λ (k : List Metric). λ i. c.clock (suc (i + length k + 1)))
                    (same r.publisher)))

  numbered_lem :
      (rs : List PublishRequest) (n : ℕ) (ms : Source → List Metric) (c : Context S)
      → All (λ r. births_node r ≡ false) rs
      → c.client.payload_sequence ≡ n % 256
      → ((s : Source) → (c.publishables s).metrics ≡ ms s)
      → messages rs c ≡ numbered t int64_bytes n ms c.client.bd_seq rs c.clock
  unfolding messages
  numbered_lem [] n ms c h e same = refl
  numbered_lem (r ∷ rs) n ms c h e same =
      let c' = (prepare t int64_bytes r c).0 in
      let no_birth : is_node_birth r ≡ false = births_lem r.publisher r.is_birth ∙ h.0 in
      let number : sequence r c ≡ n % 256 = rw no_birth e in
      messages_next r rs n ms c number same (
        numbered_lem rs (n + 1) ms c' h.1 (prepare-sequence r c ∙ omega (arith, number))
          (λ s. prepare-metrics r c s ∙ same s))

  -- The payloads of a birth of the node and of the requests after it, up to its next birth: numbered
  -- from 0, modulo 256; with the reports of the dirty metrics of their publishable, in a birth of all;
  -- and in the birth of the node, at its end, an int64 metric "bdSeq" with the birth number.
  pub messages-numbered :
      (b : PublishRequest) (rs : List PublishRequest) (c : Context S)
      → births_node b ≡ true
      → All (λ r. births_node r ≡ false) rs
      → messages (b ∷ rs) c
        ≡ numbered t int64_bytes 0
            (λ s. (c.publishables s).metrics)
            c.client.bd_seq
            (b ∷ rs)
            c.clock
  unfolding messages
  messages-numbered b rs c birth h =
      let c' = (prepare t int64_bytes b c).0 in
      let node_birth : is_node_birth b ≡ true = births_lem b.publisher b.is_birth ∙ birth in
      let number : sequence b c ≡ 0 =
        ap (λ k. if k then 0 else c.client.payload_sequence) node_birth in
      let next : c'.client.payload_sequence ≡ 1 = prepare-sequence b c ∙ omega (arith, number) in
      messages_next b rs 0 (λ s. (c.publishables s).metrics) c number (λ s. refl)
        (numbered_lem rs 1 (λ s. (c.publishables s).metrics) c' h (omega (arith, next))
          (prepare-metrics b c))

  bd_seq_step :
      (c : Context S)
      → c.client.bd_seq < 256
      → (get_will_payload t int64_bytes c).0.client.bd_seq ≡ (c.client.bd_seq + 1) % 256
  unfolding get_will_payload
  bd_seq_step c lt = ground arith

  -- The death number after several will payloads.
  unfoldable pub wills : ℕ → Context S → Context S
  wills zero c = c
  wills (suc n) c = wills n (get_will_payload t int64_bytes c).0

  -- The number goes up by one with each will payload, modulo 256.
  wills-bd_seq :
      (n : ℕ) (c : Context S)
      → c.client.bd_seq < 256
      → (wills n c).client.bd_seq ≡ (c.client.bd_seq + n) % 256
  unfolding wills
  wills-bd_seq zero c lt = omega arith
  wills-bd_seq (suc n) c lt =
      let c' = (get_will_payload t int64_bytes c).0 in
      let step = bd_seq_step c lt in omega (arith, step, wills-bd_seq n c' (omega (arith, step)))
