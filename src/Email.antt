-- ===== src/Email.antt =====
-- The mail service of the front end, frontend/email/email_service.cc, and `urlDecode` of
-- utils/utils.cc: `Decoding` is what a form holds, `Pages` and `Forms` are the pages, `Mails` sends, shows and
-- deletes, `Requests` chooses the method.
pub mod Decoding
pub mod Pages
pub mod Forms
pub mod Mails
pub mod Requests
pub mod Shown
pub mod Posted
