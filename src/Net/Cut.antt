-- ===== src/Net/Cut.antt =====
-- The fragments that `Protocol::schedule` of antarc-protocol/src/lib.rs queues for one peer.
use antarc.Base.Words.{IsByte}
use antarc.Packets.RoundTrip.{IsConnectionId}
use antarc.Protocol.Chunks.{enumerate}
use antarc.Packets.Scheduled.{Reliable, Scheduled, new_reliable_fragment}
use antarc.Base.Errors.{SocketAddr}
use antarc.Packets.Message.{Fragment, new_fragment, Payload, ConnectionId}
use antarc.Packets.Delivery.{Duration, PacketId}
use antarc.Shared.{
  refl, append_assoc, ◌+◌, suc, sym, ◌∙◌, ℕ, append-nil, arith, ap, [], ◌≡◌, length, ◌++◌, ◌<◌, ◌∷◌,
  All, concat, List,
}
use antarc.Net.FragmentArrival.{IsOf, carried}
use antarc.Net.Fragments.{IsPart, IsLast}
use antarc.Protocol.Targets.{for_each}

-- A list of more than one item has a first and a last one.
list_ends :
    {A : Type 0} (x : A) (xs : List A)
    → (front : List A) × (last : A) × (x ∷ xs ≡ front ++ (last ∷ []))
list_ends x [] = ([], x, refl)
list_ends x (y ∷ ys) = let (front, last, e) = list_ends y ys in (x ∷ front, last, ap (λ l. x ∷ l) e)

pub two_ends :
    {A : Type 0} (xs : List A)
    → 1 < length xs
    → (first : A) × (middle : List A) × (last : A) × (xs ≡ first ∷ (middle ++ (last ∷ [])))
two_ends [] several = absurd (omega arith)
two_ends (x ∷ []) several = absurd (omega arith)
two_ends (x ∷ y ∷ ys) several =
    let (front, last, e) = list_ends y ys in (x, front, last, ap (λ l. x ∷ l) e)

pub All-front :
    {A : Type 0} (P : A → Type 0) (xs ys : List A) → All P (xs ++ ys) → All P xs × All P ys
All-front P [] ys h = (tt, h)
All-front P (x ∷ xs) ys h = let (front, back) = All-front P xs ys h.1 in ((h.0, front), back)

-- Where all items of the lists have a property, those of each list do.
pub All-concat :
    {A : Type 0} (P : A → Type 0) (xss : List (List A)) → All P (concat xss) → All (All P) xss
All-concat P [] h = tt
All-concat P (xs ∷ xss) h =
    let (front, back) = All-front P xs (concat xss) h in (front, All-concat P xss back)

pub concat-append_single :
    {A : Type 0} (xss : List (List A)) (xs : List A) → concat (xss ++ (xs ∷ [])) ≡ concat xss ++ xs
concat-append_single [] xs = append-nil xs
concat-append_single (ys ∷ xss) xs =
    ap (λ l. ys ++ l) (concat-append_single xss xs) ∙ sym (append_assoc ys (concat xss) xs)

module _ (packet_id : PacketId) (time : Duration) (id : ConnectionId) (address : SocketAddr)
    (total : ℕ) where
  abbrev pub fragment_of : ℕ → Payload → Scheduled Reliable Fragment
  fragment_of index chunk = new_reliable_fragment packet_id id chunk index total time address

  -- The chunks as fragments, numbered from an index on.
  abbrev pub fragments_of : ℕ → List Payload → List (Scheduled Reliable Fragment)
  fragments_of index [] = []
  fragments_of index (chunk ∷ chunks) = fragment_of index chunk ∷ fragments_of (index + 1) chunks

  pub for_each-enumerate :
      (index : ℕ) (cut : List Payload)
      → for_each
          (λ fragment t. new_reliable_fragment packet_id t.0 fragment.1 fragment.0 total time t.1)
          ((id, address) ∷ [])
          (enumerate index cut)
        ≡ fragments_of index cut
  unfolding enumerate
  for_each-enumerate index [] = refl
  for_each-enumerate index (chunk ∷ cut) =
      ap (λ l. fragment_of index chunk ∷ l) (for_each-enumerate (index + 1) cut)

  pub fragments_of-append :
      (index : ℕ) (front : List Payload) (last : Payload)
      → fragments_of index (front ++ (last ∷ []))
        ≡ fragments_of index front ++ (fragment_of (index + length front) last ∷ [])
  fragments_of-append index [] last =
      let same : index ≡ index + 0 = omega arith in ap (λ i. fragment_of i last ∷ []) same
  fragments_of-append index (chunk ∷ front) last =
      let same : index + 1 + length front ≡ index + suc (length front) = omega arith in
      ap (λ l. fragment_of index chunk ∷ l)
        (fragments_of-append (index + 1) front last
          ∙ ap (λ i. fragments_of (index + 1) front ++ (fragment_of i last ∷ [])) same)

  pub length-fragments_of :
      (index : ℕ) (cut : List Payload) → length (fragments_of index cut) ≡ length cut
  length-fragments_of index [] = refl
  length-fragments_of index (chunk ∷ cut) = ap suc (length-fragments_of (index + 1) cut)

  pub carried-fragments_of :
      (index : ℕ) (cut : List Payload) → carried (fragments_of index cut) ≡ concat cut
  unfolding new_reliable_fragment new_fragment
  carried-fragments_of index [] = refl
  carried-fragments_of index (chunk ∷ cut) =
      ap (λ l. chunk ++ l) (carried-fragments_of (index + 1) cut)

  module _ (few : total < 256) (some_total : 0 < total) where
    -- All but the last are parts.
    pub fragments_of-IsPart :
        (index : ℕ) (cut : List Payload)
        → index + length cut < total
        → All (IsPart id address) (fragments_of index cut)
    unfolding new_reliable_fragment new_fragment
    fragments_of-IsPart index [] room = tt
    fragments_of-IsPart index (chunk ∷ cut) room = (
      record {
        to = record { same_id = refl; same_address = refl };
        some_total = omega arith;
        not_last = λ e. omega arith;
      },
      fragments_of-IsPart (index + 1) cut (omega arith),
    )

    pub fragment_of-IsLast :
        (index : ℕ) (chunk : Payload)
        → index + 1 ≡ total
        → IsLast id address (fragment_of index chunk)
    unfolding new_reliable_fragment new_fragment
    fragment_of-IsLast index chunk e = record {
      to = record { same_id = refl; same_address = refl };
      some_total = omega arith;
      last = omega arith;
    }

    pub fragment_of-IsOf :
        (index : ℕ) (chunk : Payload)
        → IsConnectionId id
        → All IsByte chunk
        → IsOf id total (fragment_of index chunk)
    unfolding new_reliable_fragment new_fragment
    fragment_of-IsOf index chunk id_range bytes = record {
      own_id = refl;
      own_total = omega arith;
      fits_message = record {
        typed = refl;
        id_range = id_range;
        index_range = omega arith;
        total_range = omega arith;
        payload_range = bytes;
      };
    }

    pub fragments_of-IsOf :
        (index : ℕ) (cut : List Payload)
        → IsConnectionId id
        → All (All IsByte) cut
        → All (IsOf id total) (fragments_of index cut)
    fragments_of-IsOf index [] id_range bytes = tt
    fragments_of-IsOf index (chunk ∷ cut) id_range bytes = (
      fragment_of-IsOf index chunk id_range bytes.0,
      fragments_of-IsOf (index + 1) cut id_range bytes.1,
    )
