-- ===== src/Door/Lifecycle.antt =====
-- A session of the datagram sender of src/door_control.rs with its client: which dictionaries were
-- offered, and which the client said are ready.
use minecraft_team_viewer_ba.Door.Suite.{Suite}
use minecraft_team_viewer_ba.Door.Dictionary.{
  ActiveDict, Bytes, DatagramDictEncoder, TrainedOffer, TrainingPolicy, activate, collected,
  dict_enabled, dict_size, is_deferred, observe, trained, with_policy,
}
use minecraft_team_viewer_ba.Prelude.{
  Bool, List, Member, Option, [], false, if◌then◌else◌, inl, inr, ite, none, not, refl, some, subst,
  sym, true, ℕ, ◌∷◌, ◌≡◌,
}
use minecraft_team_viewer_ba.Prelude.Text.{Text, Text-discrete, nat_key, text_key}

-- The events of a session: a movement batch that is observed, and a `dict_ready` of the client.
pub data Event : Type 0 where
  batch : List Bytes → ℕ → Event
  ready : Text → Event

pub record Session : Type 0 where
  pub encoder : DatagramDictEncoder
  pub offered : List TrainedOffer
  pub confirmed : List Text

abbrev pub offer_of : ActiveDict → TrainedOffer
offer_of dict = record { id = dict.id; content = dict.cdict }

-- What holds of a dictionary, if there is one.
abbrev pub Holds : (ActiveDict → Type 0) → Option ActiveDict → Type 0
Holds P none = Unit
Holds P (some dict) = P dict

module _ (train : List Bytes → ℕ → Option Bytes) (dict_id : Bytes → Text) where
  abbrev offers : Option TrainedOffer → List TrainedOffer → List TrainedOffer
  offers none offered = offered
  offers (some offer) offered = offer ∷ offered

  unfoldable pub happen : Session → Event → Session
  happen s (batch chunks now) =
      let (encoder, offer) = observe train dict_id s.encoder chunks now in
      record { encoder = encoder; offered = offers offer s.offered; confirmed = s.confirmed }
  happen s (ready id) = record {
    encoder = activate s.encoder id;
    offered = s.offered;
    confirmed = id ∷ s.confirmed;
  }

  unfoldable pub happen_all : Session → List Event → Session
  happen_all s [] = s
  happen_all s (event ∷ events) = happen_all (happen s event) events

  -- The pending dictionary was offered; the current one was offered and then confirmed.
  record IsKnown (s : Session) : Type 0 where
    pending_offered : Holds (λ d. Member (offer_of d) s.offered) s.encoder.pending
    current_offered : Holds (λ d. Member (offer_of d) s.offered) s.encoder.current
    current_confirmed : Holds (λ d. Member d.id s.confirmed) s.encoder.current

  weaken :
      (P Q : ActiveDict → Type 0)
      → ((d : ActiveDict) → P d → Q d)
      → (o : Option ActiveDict) → Holds P o
      → Holds Q o
  weaken P Q f none h = tt
  weaken P Q f (some d) h = f d h

  trained-IsKnown :
      (s : Session) (samples : List Bytes) (now : ℕ) (result : Option Bytes)
      → IsKnown s
      → let t = trained train dict_id s.encoder samples now result in
        IsKnown (record { encoder = t.0; offered = offers t.1 s.offered; confirmed = s.confirmed })
  unfolding trained
  trained-IsKnown s samples now none k = record {
    pending_offered = k.pending_offered;
    current_offered = k.current_offered;
    current_confirmed = k.current_confirmed;
  }
  trained-IsKnown s samples now (some content) k = record {
    pending_offered = inl refl;
    current_offered =
        weaken (λ d. Member (offer_of d) s.offered) _ (λ d m. inr m) s.encoder.current
          k.current_offered;
    current_confirmed = k.current_confirmed;
  }

  observe-IsKnown :
      (s : Session) (chunks : List Bytes) (now : ℕ)
      → IsKnown s
      → IsKnown (happen s (batch chunks now))
  unfolding happen observe
  observe-IsKnown s chunks now k =
      either (not (dict_enabled s.encoder.suite)) (is_deferred s.encoder samples now)
    where
      samples : List Bytes
      samples = collected s.encoder.policy.chunks_threshold s.encoder.samples chunks

      result : Bool → Bool → DatagramDictEncoder × Option TrainedOffer
      result off deferred =
          if off
          then (s.encoder, none)
          else if deferred
          then (record (s.encoder) { samples = samples }, none)
          else trained train dict_id s.encoder samples now (train samples dict_size)

      either :
          (off deferred : Bool)
          → IsKnown (record {
            encoder = (result off deferred).0;
            offered = offers (result off deferred).1 s.offered;
            confirmed = s.confirmed;
          })
      either true deferred = k
      either false true = record {
        pending_offered = k.pending_offered;
        current_offered = k.current_offered;
        current_confirmed = k.current_confirmed;
      }
      either false false = trained-IsKnown s samples now (train samples dict_size) k

  activate-IsKnown : (s : Session) (id : Text) → IsKnown s → IsKnown (happen s (ready id))
  unfolding happen activate
  activate-IsKnown s id k = either s.encoder.pending k.pending_offered
    where
      unchanged :
          IsKnown
            (record { encoder = s.encoder; offered = s.offered; confirmed = id ∷ s.confirmed })
      unchanged = record {
        pending_offered = k.pending_offered;
        current_offered = k.current_offered;
        current_confirmed =
            weaken (λ d. Member d.id s.confirmed) (λ d. Member d.id (id ∷ s.confirmed))
              (λ d m. inr m) s.encoder.current k.current_confirmed;
      }

      promoted : ActiveDict → DatagramDictEncoder
      promoted dict = record (s.encoder) {
        pending = none;
        previous = s.encoder.current;
        current = some dict;
      }

      chosen :
          (dict : ActiveDict)
          → Member (offer_of dict) s.offered
          → (d : Dec (dict.id ≡ id))
          → IsKnown (record {
            encoder = ite d (promoted dict) s.encoder;
            offered = s.offered;
            confirmed = id ∷ s.confirmed;
          })
      chosen dict m (yes e) = record {
        pending_offered = tt;
        current_offered = m;
        current_confirmed = inl (sym e);
      }
      chosen dict m (no n) = unchanged

      either :
          (p : Option ActiveDict)
          → Holds (λ d. Member (offer_of d) s.offered) p
          → IsKnown (record {
            encoder = elim p [
              | none ↦ s.encoder
              | some dict ↦ ite (Text-discrete dict.id id) (promoted dict) s.encoder
            ];
            offered = s.offered;
            confirmed = id ∷ s.confirmed;
          })
      either none h = unchanged
      either (some dict) h = chosen dict h (Text-discrete dict.id id)

  happen-IsKnown : (s : Session) (event : Event) → IsKnown s → IsKnown (happen s event)
  happen-IsKnown s (batch chunks now) k = observe-IsKnown s chunks now k
  happen-IsKnown s (ready id) k = activate-IsKnown s id k

  happen_all-IsKnown :
      (events : List Event) (s : Session) → IsKnown s → IsKnown (happen_all s events)
  unfolding happen_all
  happen_all-IsKnown [] s k = k
  happen_all-IsKnown (event ∷ events) s k =
      happen_all-IsKnown events (happen s event) (happen-IsKnown s event k)

  unfoldable pub opened : Suite → TrainingPolicy → Session
  opened suite policy = record { encoder = with_policy suite policy; offered = []; confirmed = [] }

  -- In every session, whatever the order of its events, the dictionary that compresses a datagram was
  -- offered to the client with its content, and the client has said that it is ready.
  pub encode-IsKnown :
      (suite : Suite) (policy : TrainingPolicy) (events : List Event) (dict : ActiveDict)
      → let s = happen_all (opened suite policy) events in
        s.encoder.current ≡ some dict
        → Member (offer_of dict) s.offered × Member dict.id s.confirmed
  unfolding opened with_policy
  encode-IsKnown suite policy events dict h =
      let s = happen_all (opened suite policy) events in
      let k =
        happen_all-IsKnown events (opened suite policy)
          (record { pending_offered = tt; current_offered = tt; current_confirmed = tt }) in
      (
        subst (Holds (λ d. Member (offer_of d) s.offered)) h k.current_offered,
        subst (Holds (λ d. Member d.id s.confirmed)) h k.current_confirmed,
      )
