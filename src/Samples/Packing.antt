-- ===== src/Samples/Packing.antt =====
-- A concrete receipt format, in place of YAML: every field in turn as numbers, with the length in
-- front of a text. It shows that what the store assumes of the format can hold.
use tmuxicate.Prelude.{
  ℕ, zero, suc, ◌≡◌, refl, ap, [], ◌∷◌, ◌++◌, length, Option, none, some, Result, ok, err, msg,
}
use tmuxicate.Prelude.Int.{ℤ, pos, negsuc}
use tmuxicate.Text.{Text}
use tmuxicate.Protocol.Enums.{FolderState}
use tmuxicate.Protocol.Documents.{Receipt, Time}
use tmuxicate.Mailbox.Store.{Codec}

-- `put a rest` is the form of `a` with `rest` after it; `get` takes it off again.
pub record Packing (A : Type 0) : Type 0 where
  pub put : A → Text → Text
  pub get : Text → Option (A × Text)
  pub law : (a : A) (rest : Text) → get (put a rest) ≡ some (a, rest)

and_then : {A : Type 0} {B : Type 0} → Option A → (A → Option B) → Option B
and_then none f = none
and_then (some a) f = f a

first_number : Text → Option (ℕ × Text)
first_number [] = none
first_number (n ∷ rest) = some (n, rest)

pub numbers : Packing ℕ
unfolding first_number
numbers = record { put = λ n rest. n ∷ rest; get = first_number; law = λ n rest. refl }

cons_first : ℕ → Option (Text × Text) → Option (Text × Text)
cons_first c none = none
cons_first c (some r) = some (c ∷ r.0, r.1)

split : ℕ → Text → Option (Text × Text)
unfolding cons_first
split zero rest = some ([], rest)
split (suc n) [] = none
split (suc n) (c ∷ rest) = cons_first c (split n rest)

split-length : (t : Text) (rest : Text) → split (length t) (t ++ rest) ≡ some (t, rest)
unfolding split cons_first
split-length [] rest = refl
split-length (c ∷ t) rest = ap (cons_first c) (split-length t rest)

get_text : Text → Option (Text × Text)
unfolding split
get_text [] = none
get_text (n ∷ rest) = split n rest

pub texts : Packing Text
unfolding get_text
texts = record { put = λ t rest. length t ∷ (t ++ rest); get = get_text; law = split-length }

pub pairs : {A : Type 0} {B : Type 0} → Packing A → Packing B → Packing (A × B)
unfolding and_then
pairs {A} {B} p q = record {
  put = λ a rest. p.put (a.0) (q.put (a.1) rest);
  get = λ t. and_then (p.get t) λ a. and_then (q.get (a.1)) λ b. some ((a.0, b.0), b.1);
  law = λ a rest. rw (p.law (a.0) (q.put (a.1) rest)) (rw (q.law (a.1) rest) refl);
}

-- A number and what it stands for.
tagged : {A : Type 0} {B : Type 0} → Option (A × Text) → (A → B) → Option (B × Text)
tagged none f = none
tagged (some a) f = some (f (a.0), a.1)

get_int : Text → Option (ℤ × Text)
unfolding tagged first_number
get_int [] = none
get_int (zero ∷ rest) = tagged (first_number rest) pos
get_int (suc n ∷ rest) = tagged (first_number rest) negsuc

put_int : ℤ → Text → Text
put_int (pos n) rest = 0 ∷ n ∷ rest
put_int (negsuc n) rest = 1 ∷ n ∷ rest

int-law : (a : ℤ) (rest : Text) → get_int (put_int a rest) ≡ some (a, rest)
unfolding get_int put_int
int-law (pos n) rest = refl
int-law (negsuc n) rest = refl

pub ints : Packing ℤ
unfolding get_int put_int
ints = record { put = put_int; get = get_int; law = int-law }

module _ {A : Type 0} (p : Packing A) where
  get_option : Text → Option (Option A × Text)
  unfolding tagged
  get_option [] = none
  get_option (zero ∷ rest) = some (none, rest)
  get_option (suc n ∷ rest) = tagged (p.get rest) some

  put_option : Option A → Text → Text
  put_option none rest = 0 ∷ rest
  put_option (some a) rest = 1 ∷ p.put a rest

  option-law : (a : Option A) (rest : Text) → get_option (put_option a rest) ≡ some (a, rest)
  unfolding get_option put_option
  option-law none rest = refl
  option-law (some a) rest = rw (p.law a rest) refl

  pub options : Packing (Option A)
  options = record { put = put_option; get = get_option; law = option-law }

get_folder : Text → Option (FolderState × Text)
unfolding tagged
get_folder [] = none
get_folder (zero ∷ rest) = some (FolderState.unread, rest)
get_folder (suc zero ∷ rest) = some (FolderState.active, rest)
get_folder (suc (suc zero) ∷ rest) = some (FolderState.done, rest)
get_folder (suc (suc (suc zero)) ∷ rest) = some (FolderState.dead, rest)
get_folder (n ∷ rest) = tagged (texts.get rest) FolderState.other

put_folder : FolderState → Text → Text
put_folder FolderState.unread rest = 0 ∷ rest
put_folder FolderState.active rest = 1 ∷ rest
put_folder FolderState.done rest = 2 ∷ rest
put_folder FolderState.dead rest = 3 ∷ rest
put_folder (FolderState.other t) rest = 4 ∷ texts.put t rest

folder-law : (a : FolderState) (rest : Text) → get_folder (put_folder a rest) ≡ some (a, rest)
unfolding get_folder put_folder
folder-law (FolderState.other t) rest = rw (texts.law t rest) refl
folder-law FolderState.unread rest = refl
folder-law FolderState.active rest = refl
folder-law FolderState.done rest = refl
folder-law FolderState.dead rest = refl

folder_states : Packing FolderState
unfolding get_folder put_folder
folder_states = record { put = put_folder; get = get_folder; law = folder-law }

abbrev Fields : Type 0
Fields =
    Text
    × (Text
        × (ℤ
            × (Text
                × (FolderState
                    × (ℤ
                        × (Option Time
                            × (Option Text
                                × (Option Time
                                    × (Option Time
                                        × (ℤ × (Option Time × (Option Time × Option Text))))))))))))

abbrev fields_of : Receipt → Fields
fields_of r = (
  r.schema,
  (
    r.message_id,
    (
      r.seq,
      (
        r.recipient,
        (
          r.folder_state,
          (
            r.revision,
            (
              r.acked_at,
              (
                r.claimed_by,
                (
                  r.claimed_at,
                  (
                    r.done_at,
                    (r.notify_attempts, (r.last_notified_at, (r.next_retry_at, r.last_error))),
                  ),
                ),
              ),
            ),
          ),
        ),
      ),
    ),
  ),
)

abbrev receipt_of : Fields → Receipt
receipt_of
      (
        schema,
        (
          message_id,
          (
            seq,
            (
              recipient,
              (
                folder_state,
                (
                  revision,
                  (
                    acked_at,
                    (
                      claimed_by,
                      (
                        claimed_at,
                        (
                          done_at,
                          (notify_attempts, (last_notified_at, (next_retry_at, last_error))),
                        ),
                      ),
                    ),
                  ),
                ),
              ),
            ),
          ),
        ),
      ) =
    record {
      schema = schema;
      message_id = message_id;
      seq = seq;
      recipient = recipient;
      folder_state = folder_state;
      revision = revision;
      acked_at = acked_at;
      claimed_by = claimed_by;
      claimed_at = claimed_at;
      done_at = done_at;
      notify_attempts = notify_attempts;
      last_notified_at = last_notified_at;
      next_retry_at = next_retry_at;
      last_error = last_error;
    }

fields : Packing Fields
unfolding texts pairs ints folder_states options numbers
fields = pairs texts (
    pairs texts (
      pairs ints (
        pairs texts (
          pairs folder_states (
            pairs ints (
              pairs (options numbers) (
                pairs (options texts) (
                  pairs (options numbers) (
                    pairs (options numbers) (
                      pairs ints (
                        pairs (options numbers) (pairs (options numbers) (options texts)))))))))))))

whole : Option (Fields × Text) → Result Receipt
whole none = err (msg "not a receipt")
whole (some r) = ok (receipt_of (r.0))

pub put_receipt : Receipt → Text
put_receipt r = fields.put (fields_of r) []

receipt-law : (a : Receipt) (t : Text) → ok (put_receipt a) ≡ ok t → whole (fields.get t) ≡ ok a
unfolding whole put_receipt
receipt-law a t e = rw (same e) (rw (fields.law (fields_of a) []) refl)
  where
    same : {x : Text} {y : Text} → ok x ≡ ok y → y ≡ x
    same h = cc

unfoldable pub receipt_codec : Codec Receipt
unfolding fields whole put_receipt put_option get_option split-length int-law folder-law option-law
    receipt-law
receipt_codec = record {
  marshal = λ r. ok (put_receipt r);
  unmarshal = λ t. whole (fields.get t);
  round_trip = receipt-law;
}

pub receipt_codec-marshal : (r : Receipt) → receipt_codec.marshal r ≡ ok (put_receipt r)
unfolding receipt_codec
receipt_codec-marshal r = refl
