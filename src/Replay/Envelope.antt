-- ===== src/Replay/Envelope.antt =====
-- consumers/base_consumer.py: the dictionary of a dead letter and what it holds of the message.
use log_foundry.Prelude.{
  String, ◌≡◌, refl, sym, subst, ◌⊎◌, inl, inr, Option, none, some, [], ◌∷◌, ret, ret_inj,
  ret-ne-raise, and_then-ret, decimal, Option-cases,
}
use log_foundry.Consumers.Kafka.{Bytes, Message}
use log_foundry.Consumers.Payload.{Json, null, text, number, object, field, end, get, field_of}
use log_foundry.Consumers.Base.{Codec, Settings, DeadLetter, letter_of, decode_optional}
use log_foundry.Gateway.Models.{text_or_null}

-- The dictionary of a dead letter.
unfoldable pub envelope : DeadLetter → Json
envelope letter = object (
    field "original_topic" (text letter.original_topic) (
      field "original_partition" (number (decimal letter.original_partition)) (
        field "original_offset" (number (decimal letter.original_offset)) (
          field "original_key" (text_or_null letter.original_key) (
            field "original_value" (text_or_null letter.original_value) (
              field "consumer_class" (text letter.consumer_class)
                (field "group_id" (text letter.group_id) end)))))))

pub get-envelope :
    (letter : DeadLetter)
    → get (envelope letter) "original_value" null ≡ ret (text_or_null letter.original_value)
unfolding envelope get field_of
get-envelope letter = refl

module _ (cd : Codec) where
  -- The text of a message, or why it has none.
  abbrev pub HasText : Option Bytes → Option String → Type 0
  HasText value (some t) = (content : Bytes) × (value ≡ some content) × (cd.decode content ≡ some t)
  HasText value none = (value ≡ none) ⊎ (value ≡ some [])

  decode_optional-HasText :
      (value : Option Bytes) (o : Option String)
      → decode_optional cd value ≡ ret o
      → HasText value o
  unfolding decode_optional
  decode_optional-HasText none o h = subst (HasText none) (ret_inj h) (inl refl)
  decode_optional-HasText (some []) o h = subst (HasText (some [])) (ret_inj h) (inr refl)
  decode_optional-HasText (some (b ∷ bs)) o h = elim (Option-cases (cd.decode (b ∷ bs))) [
    | inl e ↦ absurd (ret-ne-raise (sym (rw (e, decode_optional) at h)))
    | inr (t, e) ↦
        subst (HasText (some (b ∷ bs))) (ret_inj (rw (e, decode_optional) at h)) (b ∷ bs, refl, e)
  ]

  pub letter_of-HasText :
      (st : Settings) (m : Message) (letter : DeadLetter)
      → letter_of cd st m ≡ ret letter
      → HasText m.value letter.original_value
  unfolding letter_of
  letter_of-HasText st m letter h =
      let (key, e, g) = and_then-ret (decode_optional cd m.key) _ letter h in
      let (value, f, i) = and_then-ret (decode_optional cd m.value) _ letter g in
      subst (λ l. HasText m.value (DeadLetter.original_value l)) (ret_inj i)
        (decode_optional-HasText m.value value f)
