-- ===== src/Channels/Refinement.antt =====
-- What the pool of core/mavlink_channels.cpp promises: a set of channels in use, from which any
-- free channel may be handed out, and the proof that the array keeps that promise.
use stealth_drone_purdue.Base.{
  ℕ, zero, suc, ◌+◌, ◌<◌, ◌≤◌, ◌≡◌, refl, inl, inr, Bool, true, false, List, [], ◌∷◌, Option, none,
  some, arith, ltb, ◌==◌, if◌then◌else◌, length, get_or, set, get_or-set, length-set, Option-cases,
  Bool-cases, ltb→lt, fun_ext, sym, subst, ◌∙◌,
}
use stealth_drone_purdue.Channels.{
  MavlinkChannels, max_channels, first_free, checkout_free_channel, checkin_used_channel,
}

-- The channels in use, as a set.
abbrev InUse : Type 0
InUse = ℕ → Bool

abbrev update : ℕ → Bool → InUse → InUse
update k b f j = if k == j then b else f j

-- A call with its answer.
pub data Call : Type 0 where
  checkout : Option ℕ → Call
  checkin : ℕ → Call

-- The specification: a checkout hands out some channel below the bound that is not in use, or
-- fails where there is none; a checkin frees a channel below the bound and ignores any other number.
pub data Spec (f : InUse) : Call → InUse → Type 0 where
  take : (k : ℕ) → k < max_channels → f k ≡ false → Spec f (checkout (some k)) (update k true f)
  full : ((k : ℕ) → k < max_channels → f k ≡ true) → Spec f (checkout none) f
  give : (k : ℕ) → k < max_channels → Spec f (checkin k) (update k false f)
  ignore : (k : ℕ) → max_channels ≤ k → Spec f (checkin k) f

pub data Specs : InUse → List Call → InUse → Type 0 where
  finish : (f : InUse) → Specs f [] f
  follow :
      {f g h : InUse} {call : Call} {calls : List Call}
      → Spec f call g
      → Specs g calls h
      → Specs f (call ∷ calls) h

-- The requests of a client, and what the pool answers.
pub data Request : Type 0 where
  checkout : Request
  checkin : ℕ → Request

pub serve : Request → MavlinkChannels → Call × MavlinkChannels
serve Request.checkout used =
    (Call.checkout (checkout_free_channel used).0, (checkout_free_channel used).1)
serve (Request.checkin k) used = (Call.checkin k, checkin_used_channel k used)

pub serve_all : List Request → MavlinkChannels → List Call × MavlinkChannels
serve_all [] used = ([], used)
serve_all (request ∷ requests) used = (
  (serve request used).0 ∷ (serve_all requests (serve request used).1).0,
  (serve_all requests (serve request used).1).1,
)

-- The set that the array stands for.
abbrev pub in_use : MavlinkChannels → InUse
in_use used k = get_or used k false

first_free-some :
    (n i k : ℕ) (used : MavlinkChannels)
    → first_free n i used ≡ some k
    → (i ≤ k) × (k < i + n) × (get_or used k true ≡ false)
unfolding first_free
first_free-some zero i k used h = ground arith
first_free-some (suc n) i k used h = ground (arith, first_free-some n (i + 1) k used)

first_free-none :
    (n i k : ℕ) (used : MavlinkChannels)
    → first_free n i used ≡ none
    → i ≤ k
    → k < i + n
    → get_or used k true ≡ true
unfolding first_free
first_free-none zero i k used h lo hi = absurd (omega arith)
first_free-none (suc n) i k used h lo hi = ground (arith, first_free-none n (i + 1) k used)

-- Within the array the default value does not matter.
get_or_default :
    (xs : List Bool) (i : ℕ) (d d' : Bool) → i < length xs → get_or xs i d ≡ get_or xs i d'
get_or_default [] i d d' h = absurd (omega arith)
get_or_default (x ∷ xs) zero d d' h = refl
get_or_default (x ∷ xs) (suc i) d d' h = get_or_default xs i d d' (omega arith)

in_use-set :
    (used : MavlinkChannels) (k : ℕ) (b : Bool)
    → length used ≡ max_channels
    → k < max_channels
    → in_use (set used k b) ≡ update k b (in_use used)
in_use-set used k b l h = fun_ext λ j. ground (arith, get_or-set used k j b false)

checkout_refines :
    (used : MavlinkChannels)
    → length used ≡ max_channels
    → Spec
        (in_use used)
        (Call.checkout (checkout_free_channel used).0)
        (in_use (checkout_free_channel used).1)
      × (length (checkout_free_channel used).1 ≡ max_channels)
unfolding checkout_free_channel
checkout_refines used l = elim (Option-cases (first_free max_channels 0 used)) [
  | inl e ↦
      let all : (k : ℕ) → k < max_channels → in_use used k ≡ true = λ k h.
        get_or_default used k false true (omega arith)
        ∙ first_free-none max_channels 0 k used e (omega arith) (omega arith) in
      rw (e, checkout_free_channel) (full all, l)
  | inr (k, e) ↦
      let (low, high, free) = first_free-some max_channels 0 k used e in
      let taken : Spec (in_use used) (Call.checkout (some k)) (update k true (in_use used)) =
        take k high (get_or_default used k false true (omega arith) ∙ free) in
      rw (e, checkout_free_channel)
        (
          subst (Spec (in_use used) (Call.checkout (some k))) (sym (in_use-set used k true l high))
              taken,
          length-set used k true ∙ l,
        )
]

checkin_refines :
    (k : ℕ) (used : MavlinkChannels)
    → length used ≡ max_channels
    → Spec (in_use used) (Call.checkin k) (in_use (checkin_used_channel k used))
      × (length (checkin_used_channel k used) ≡ max_channels)
unfolding checkin_used_channel
checkin_refines k used l = elim (Bool-cases (ltb k max_channels)) [
  | inl e ↦
      let high : k < max_channels = ltb→lt k max_channels e in
      rw e (
        subst (Spec (in_use used) (Call.checkin k)) (sym (in_use-set used k false l high))
            (give k high),
        length-set used k false ∙ l,
      )
  | inr e ↦ rw e (ignore k (ground arith), l)
]

serve_refines :
    (request : Request) (used : MavlinkChannels)
    → length used ≡ max_channels
    → Spec (in_use used) (serve request used).0 (in_use (serve request used).1)
      × (length (serve request used).1 ≡ max_channels)
unfolding serve
serve_refines Request.checkout used l = checkout_refines used l
serve_refines (Request.checkin k) used l = checkin_refines k used l

-- Any sequence of requests, from any array of the right length, is answered as the specification
-- allows from the set that the array stands for, and ends in the set of the final array: a
-- channel is handed out only while it is not in use and below the bound, a checkout fails only
-- when all channels are in use, and a checkin frees exactly its channel.
pub serve_all_refines :
    (requests : List Request) (used : MavlinkChannels)
    → length used ≡ max_channels
    → Specs (in_use used) (serve_all requests used).0 (in_use (serve_all requests used).1)
unfolding serve_all
serve_all_refines [] used l = finish (in_use used)
serve_all_refines (request ∷ requests) used l =
    let (one, l') = serve_refines request used l in
    follow one (serve_all_refines requests (serve request used).1 l')
