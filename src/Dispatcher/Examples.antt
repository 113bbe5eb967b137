-- ===== src/Dispatcher/Examples.antt =====
-- Runs of dispatcher/dispatcher.go at concrete events.
use thclaws_thai_ai_agent.Sql.{ok, err}
use thclaws_thai_ai_agent.Base.{
  ℕ, String, Bool, true, false, ◌≡◌, none, some, List, [], ◌∷◌, ◌⊎◌, str_eq, refl, ltb,
}
use thclaws_thai_ai_agent.Base.Int.{pos}
use thclaws_thai_ai_agent.Thaitime.{Calendar}
use thclaws_thai_ai_agent.Ledger.Tables.{Db}
use thclaws_thai_ai_agent.Ledger.Books.{On, IsSound, IsSound-nil}
use thclaws_thai_ai_agent.Ledger.Money.{char_at}
use thclaws_thai_ai_agent.Parser.Parse.{parse, record_expense, record_income}
use thclaws_thai_ai_agent.Memory.Store.{Store, PendingAction}
use thclaws_thai_ai_agent.Dispatcher.Answers.{
  replacements, claims_completed_action, sanitize_chat_answer,
}
use thclaws_thai_ai_agent.Dispatcher.Answers.Sanitized.{sanitize_chat_answer-honest}
use thclaws_thai_ai_agent.Dispatcher.Chat.{
  Reply, Chat, Outcome, delivered, refused, Identity, Service, Asker, answered,
}
use thclaws_thai_ai_agent.Dispatcher.Phrases.{ignore, transfer}
use thclaws_thai_ai_agent.Dispatcher.Pending.{handle_pending_accounting_choice}
use thclaws_thai_ai_agent.Dispatcher.Talk.{chat}
use thclaws_thai_ai_agent.Dispatcher.Text.{answer_intent}
use thclaws_thai_ai_agent.Dispatcher.Event.{Event, known, handle_text, dispatch}
use thclaws_thai_ai_agent.Ledger.Tenants.{rows_of}
use thclaws_thai_ai_agent.Dispatcher.Isolated.{dispatch_isolates}
use thclaws_thai_ai_agent.Dispatcher.Sound.{user_of, dispatch-IsSound, handle_text_told_once}
use thclaws_thai_ai_agent.Dispatcher.Unwritten.{chat_not_written}

abbrev somchai : Identity
somchai = record { user_id = "u1"; agent_id = "a1"; namespace = "line:u1" }

abbrev plain_calendar : Calendar
plain_calendar = record {
  year = λ t. 2026;
  month = λ t. 11;
  day = λ t. 26;
  weekday = λ t. 4;
  hour = λ t. 18;
  minute = λ t. 5;
  midnight = λ t. 0;
  first_of_month = λ t. 0;
  first_of_next_month = λ t. 2_000_000_000;
}

abbrev boastful : Service
boastful = record {
  chatter = some (λ ns id prompt. answered "บันทึกเรียบร้อยครับ/ค่ะ");
  line_content = none;
  store_put = none;
  store_get = none;
  vision = none;
  brain_pages = λ ns. [];
  has_queue = true;
  web_search = none;
  liff_issuer = none;
  media = record {
    mac_hex = λ k s. s;
    parse_int = λ s. none;
    format_int = λ n. "";
    path_escape = λ s. s;
    query_escape = λ s. s;
    trim_slashes = λ s. s;
    object_id = λ s. none;
    stored_image = λ s. ok none;
    get = λ b o. err "";
  };
  image_access_secret = "";
  public_base_url = "";
  liff_id = "";
  has_writer = true;
  reply_timeout = 35_000_000_000;
  calendar = plain_calendar;
  replacement_order = replacements;
}

abbrev no_rows_yet : Db
no_rows_yet = record {
  transactions = [];
  accounts = [];
  entries = [];
  lines = [];
  allocations = [];
  projects = [];
  events = [];
  outbox = [];
  businesses =
      record { id = "b1"; owner_id = "u1"; name = "ร้าน"; business_type = "ร้านค้าเล็ก" } ∷ [];
  households = [];
  members = [];
  household_transactions = [];
}

abbrev no_documents : Store
no_documents = record {
  pending_actions = [];
  messages = [];
  event_logs = [];
  sessions = [];
  profiles = [];
  snapshots = [];
  images = [];
  slips = [];
  accounts = [];
  summaries = [];
  wiki_pages = [];
}

abbrev numeral : ℕ → String
numeral n = char_at "abcdefghijklmnopqrstuvwxyz" n

-- LINE refuses as many replies as there are `true` at the front of the list.
abbrev fresh : List Bool → Chat
fresh line_faults = record {
  books = record {
    db = no_rows_yet;
    work = no_rows_yet;
    aborted = false;
    faults = [];
    uuid = numeral;
    drawn = 0;
    clock = 1_000_000_000;
  };
  memory = record {
    db = no_documents;
    work = no_documents;
    aborted = false;
    faults = [];
    uuid = numeral;
    drawn = 0;
    clock = 1_000_000_000;
  };
  sent = [];
  line_faults = line_faults;
  jobs = [];
  queue_faults = [];
}

abbrev says : String → Event
says content = record {
  line_user_id = "U0123456789";
  reply_token = "token";
  message_type = "text";
  content = content;
  message_id = "m1";
  received_at = some 0;
}

abbrev run : Event → Chat → Outcome × Chat
run e c = dispatch (λ u t. "image") boastful (λ u. known somchai) e c

dispatch-IsSound_example : On IsSound (run (says "กาแฟ 60") (fresh [])).1.books.db
dispatch-IsSound_example =
    dispatch-IsSound (λ u t. "image") boastful (λ u. known somchai) (says "กาแฟ 60") (fresh [])
      IsSound-nil

abbrev malee : Identity
malee = record { user_id = "malee"; agent_id = "a2"; namespace = "ns2" }

abbrev after_coffee : Chat
after_coffee = (run (says "กาแฟ 60") (fresh [])).1

-- Malee writes, and Somchai has what he had.
dispatch_isolates_example :
    rows_of somchai.user_id
      (dispatch
        (λ u t. "image")
        boastful
        (λ u. known malee)
        (says "น้ำมัน 500")
        after_coffee).1.books.db
    ≡ rows_of somchai.user_id after_coffee.books.db
dispatch_isolates_example =
    dispatch_isolates (λ u t. "image") boastful (λ u. known malee) (says "น้ำมัน 500") after_coffee
      somchai.user_id others_differ
  where
    others_differ : str_eq (user_of (known malee)) somchai.user_id ≡ false
    others_differ = unfold user_of in refl

handle_text_told_once_example :
    (((handle_text boastful somchai "U1" "m1" "ขาย กาแฟ 120" (fresh (true ∷ []))).0 ≡ delivered)
      × ((r : Reply) × ((handle_text boastful somchai "U1" "m1" "ขาย กาแฟ 120"
              (fresh (true ∷ []))).1.sent
            ≡ r ∷ [])))
    ⊎ (((handle_text boastful somchai "U1" "m1" "ขาย กาแฟ 120" (fresh (true ∷ []))).0 ≡ refused)
        × ((handle_text boastful somchai "U1" "m1" "ขาย กาแฟ 120" (fresh (true ∷ []))).1.sent ≡ []))
handle_text_told_once_example =
    handle_text_told_once boastful somchai "U1" "m1" "ขาย กาแฟ 120" (fresh (true ∷ []))

sanitize_chat_answer-honest_example :
    claims_completed_action (sanitize_chat_answer replacements "บันทึกเรียบร้อยครับ/ค่ะ") ≡ false
sanitize_chat_answer-honest_example =
    sanitize_chat_answer-honest replacements "บันทึกเรียบร้อยครับ/ค่ะ"

abbrev asker : Asker
asker = record { identity = somchai; session = none }

abbrev taxi : PendingAction
taxi = record {
  owner_id = "u1";
  agent_id = "a1";
  namespace = "line:u1";
  original = "แท็กซี่ 60";
  direction = "";
  amount = pos 6_000;
  note = "แท็กซี่";
  category = "เดินทาง";
  counterparty_name = "";
  counterparty_role = "";
  confidence = 70;
  causation_id = "m0";
  expires_at = 600_000_000_000;
}

-- "แท็กซี่ 60" is still asked about.
abbrev asked_before : Chat
asked_before = record (fresh []) {
  memory = record (fresh []).memory { db = record no_documents { pending_actions = taxi ∷ [] } };
}

unsure_things : ltb (parse "ของ 60").confidence 75 ≡ true
unfolding parse
unsure_things = refl

chat_not_written_example :
    ((handle_pending_accounting_choice boastful asker "m1" ignore asked_before).1.books.db
      ≡ no_rows_yet)
    × ((handle_pending_accounting_choice boastful asker "m1" transfer asked_before).1.books.db
        ≡ no_rows_yet)
    × ((answer_intent boastful asker "U1" "m1" "ของ 60"
          (parse "ของ 60")
          record_expense
          asked_before).1.books.db
        ≡ no_rows_yet)
    × ((answer_intent boastful asker "U1" "m1" "ของ 60"
          (parse "ของ 60")
          record_income
          asked_before).1.books.db
        ≡ no_rows_yet)
    × ((chat boastful asker "U1" "ของ 60" asked_before).1.books.db ≡ no_rows_yet)
chat_not_written_example =
    chat_not_written boastful asker "U1" "m1" "ของ 60" (parse "ของ 60") asked_before unsure_things
