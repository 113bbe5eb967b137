-- ===== src/Memory/Images.antt =====
-- Stored images and slips of memory/service.go; its audit log, whose errors are dropped, is left out.
use thclaws_thai_ai_agent.Base.{
  ℕ, String, Bool, ◌&&◌, ◌||◌, not, Option, none, some, List, [], ◌∷◌, str_eq, if◌then◌else◌,
  exists, leb,
}
use thclaws_thai_ai_agent.Base.Int.{ℤ}
use thclaws_thai_ai_agent.Base.Text.{is_empty, trim_space, to_upper}
use thclaws_thai_ai_agent.Sql.{
  Error, ok, Stamp, Query, M, pure, guard, on_pool, wrap, writing, reading, ◌>>=◌, ◌>>◌,
}
use thclaws_thai_ai_agent.Memory.Store.{StoredImage, SlipRecord, AccountIdentity, Store, update_one}

-- `SaveStoredImageInput`
pub record ImageInput : Type 0 where
  pub owner_id : String
  pub agent_id : String
  pub namespace : String
  pub line_message_id : String
  pub bucket : String
  pub object_name : String
  pub content_type : String
  pub size : ℕ

abbrev image_of : ImageInput → Stamp → StoredImage
image_of input st = record {
  id = st.id;
  owner_id = input.owner_id;
  agent_id = input.agent_id;
  namespace = input.namespace;
  line_message_id = input.line_message_id;
  bucket = input.bucket;
  object_name = input.object_name;
  content_type = input.content_type;
  size = input.size;
  created_at = st.now;
}

unfoldable pub insert_image : ImageInput → Query Store StoredImage
insert_image input st s = ok (image_of input st, record s { images = image_of input st ∷ s.images })

-- `SaveStoredImage`
unfoldable pub save_stored_image : ImageInput → M Store Error StoredImage
save_stored_image input = do
  guard (is_empty (trim_space input.namespace)) "memory: SaveStoredImage: namespace is empty"
  wrap "memory: SaveStoredImage" (on_pool (insert_image input))

abbrev later_of : StoredImage → Option StoredImage → StoredImage
later_of i none = i
later_of i (some j) = if leb j.created_at i.created_at then i else j

-- The latest image of a namespace.
unfoldable pub latest_image : String → List StoredImage → Option StoredImage
latest_image namespace [] = none
latest_image namespace (i ∷ is) =
    let rest = latest_image namespace is in
    if str_eq i.namespace namespace then some (later_of i rest) else rest

-- `GetLatestStoredImage`
unfoldable pub get_latest_stored_image : String → M Store Error (Option StoredImage)
unfolding latest_image
get_latest_stored_image namespace = do
  guard (is_empty (trim_space namespace)) "memory: GetLatestStoredImage: namespace is empty"
  wrap "memory: GetLatestStoredImage"
      (on_pool (reading (λ s. ok (latest_image namespace s.images))))

abbrev slip_of : String → String → String → String → Stamp → SlipRecord
slip_of owner_id agent_id namespace image_id st = record {
  id = st.id;
  owner_id = owner_id;
  agent_id = agent_id;
  namespace = namespace;
  stored_image_id = image_id;
  status = "PENDING_OCR";
  direction = "UNKNOWN";
  amount = none;
  from_account_masked = "";
  to_account_masked = "";
  raw_text = "";
}

unfoldable pub insert_slip : String → String → String → String → Query Store SlipRecord
insert_slip owner_id agent_id namespace image_id st s =
    let slip = slip_of owner_id agent_id namespace image_id st in
    ok (slip, record s { slips = slip ∷ s.slips })

-- `CreatePendingSlip`
unfoldable pub create_pending_slip : String → String → String → String → M Store Error SlipRecord
create_pending_slip owner_id agent_id namespace image_id =
    wrap "memory: CreatePendingSlip" (on_pool (insert_slip owner_id agent_id namespace image_id))

-- `SlipVisionInput`
pub record SlipVision : Type 0 where
  pub owner_id : String
  pub slip_id : String
  pub is_slip : Bool
  pub amount : Option ℤ
  pub from_account_masked : String
  pub to_account_masked : String
  pub final_reply : String
  pub direction_hint : String

-- Is it an account of the owner's? An account with an empty number never is.
unfoldable pub is_own : String → String → List AccountIdentity → Bool
is_own owner_id masked accounts =
    not (is_empty masked)
    && exists
        (λ (a : AccountIdentity).
          str_eq a.owner_id owner_id && a.is_owner_account && str_eq a.account_no_masked masked)
        accounts

abbrev direction_of : Bool → Bool → String
direction_of from_own to_own =
    if from_own && to_own
    then "TRANSFER"
    else if to_own
    then "INCOME"
    else if from_own
    then "EXPENSE"
    else "UNKNOWN"

abbrev is_direction : String → Bool
is_direction h = str_eq h "INCOME" || str_eq h "EXPENSE" || str_eq h "TRANSFER"

-- `classifySlipDirection`
unfoldable pub classify_slip_direction : String → String → String → String → M Store Error String
unfolding is_own to_upper trim_space
classify_slip_direction owner_id hint from_masked to_masked =
    if is_direction (to_upper (trim_space hint))
    then pure (to_upper (trim_space hint))
    else wrap "memory: classifySlipDirection accounts" (
        on_pool (
          reading (λ s. ok (
            direction_of (is_own owner_id from_masked s.accounts)
              (is_own owner_id to_masked s.accounts)))))

unfoldable pub set_vision : SlipVision → String → Stamp → Store → Store
set_vision input direction st s = record s {
  slips =
      update_one (λ (x : SlipRecord). str_eq x.id input.slip_id && str_eq x.owner_id input.owner_id)
        (λ (x : SlipRecord). record x {
          status = if input.is_slip then "NEEDS_CONFIRMATION" else "PARSED";
          direction = direction;
          amount = input.amount;
          from_account_masked = input.from_account_masked;
          to_account_masked = input.to_account_masked;
          raw_text = input.final_reply;
        })
        s.slips;
}

-- `ApplyVisionToSlip`
unfoldable pub apply_vision_to_slip : SlipVision → M Store Error String
apply_vision_to_slip input = do
  direction ←
      classify_slip_direction input.owner_id input.direction_hint input.from_account_masked
        input.to_account_masked
  wrap "memory: ApplyVisionToSlip" (on_pool (writing (set_vision input direction)))
  pure direction
