-- ===== src/Tests/Codec.antt =====
-- A codec of notifications that reads back what it has written: the fields of a notification, each
-- with a mark before every character and another after the last one.
use Prim.Native.Char.{Char}
use Prim.Native.String as Text
use server_watch.Base.{
  ℕ, ◌≡◌, refl, ap, ◌∙◌, none, some, List, [], ◌∷◌, String, str_eq, Result, ok, err, foreign,
  if◌then◌else◌,
}
use server_watch.Model.{Notification}
use server_watch.Notifications.Queue.{NotificationCodec}
use server_watch.Tests.Stores.{Number}
use server_watch.Tests.Client.{ones, digits, digits-ones}

abbrev field : String → String → String
field Text.[] rest = Text.◌∷◌ "." rest
field (Text.◌∷◌ c text) rest = Text.◌∷◌ "-" (Text.◌∷◌ c (field text rest))

abbrev with_char : Char → List String → List String
with_char c [] = Text.◌∷◌ c "" ∷ []
with_char c (text ∷ more) = Text.◌∷◌ c text ∷ more

abbrev fields : String → List String
fields Text.[] = []
fields (Text.◌∷◌ mark Text.[]) = "" ∷ []
fields (Text.◌∷◌ mark (Text.◌∷◌ c rest)) =
    let more = fields rest in
    let after = fields (Text.◌∷◌ c rest) in
    if str_eq (Text.◌∷◌ mark "") "-" then with_char c more else "" ∷ after

fields-field : (text rest : String) → fields (field text rest) ≡ text ∷ fields rest
fields-field Text.[] Text.[] = refl
fields-field Text.[] (Text.◌∷◌ c rest) = refl
fields-field (Text.◌∷◌ c text) rest = ap (with_char c) (fields-field text rest)

abbrev number_of : Number → ℕ
number_of (some n) = n
number_of none = 0

abbrev encode : List String → String
encode [] = ""
encode (text ∷ more) = field text (encode more)

fields-encode : (texts : List String) → fields (encode texts) ≡ texts
fields-encode [] = refl
fields-encode (text ∷ more) =
    fields-field text (encode more) ∙ ap (λ l. text ∷ l) (fields-encode more)

abbrev columns : Notification Number → List String
columns n =
    n.kind
    ∷ n.action
    ∷ ones (number_of n.value)
    ∷ ones (number_of n.threshold)
    ∷ ones n.timestamp
    ∷ []

abbrev pub text_of : Notification Number → String
text_of n = encode (columns n)

abbrev read : List String → Result (Notification Number)
read (kind ∷ action ∷ value ∷ threshold ∷ timestamp ∷ _) = ok (record {
  kind = kind;
  action = action;
  value = some (digits value);
  threshold = some (digits threshold);
  timestamp = digits timestamp;
})
read _ = err (foreign 3)

abbrev pub texts : NotificationCodec Number
texts = record {
  marshal = λ n. ok (text_of n);
  unmarshal = λ text. read (fields text);
  empty = record { kind = ""; action = ""; value = some 0; threshold = some 0; timestamp = 0 };
}

abbrev pub IsFinite : Number → Type 0
IsFinite x = (n : ℕ) × (x ≡ some n)

pub texts-carries :
    (n : Notification Number)
    → IsFinite n.value
    → IsFinite n.threshold
    → (texts.marshal n ≡ ok (text_of n)) × (texts.unmarshal (text_of n) ≡ ok n)
texts-carries n (v, ev) (th, et) =
    let value : some (digits (ones (number_of n.value))) ≡ n.value =
      ap some (digits-ones (number_of n.value)) ∙ rw ev refl in
    let threshold : some (digits (ones (number_of n.threshold))) ≡ n.threshold =
      ap some (digits-ones (number_of n.threshold)) ∙ rw et refl in
    (
      refl,
      rw (fields-encode (columns n)) (λ i. ok (record n {
        value = value i;
        threshold = threshold i;
        timestamp = digits-ones n.timestamp i;
      })),
    )
