-- ===== src/Lib.antt =====
-- The backend of a social network: an HTTP server whose handlers (internal/handler) call services
-- (internal/service), some of them through gRPC (internal/grpc), which keep their state in
-- PostgreSQL (internal/repository/db) and Redis (internal/repository/dbRedis). The errors, the
-- pagination and the types of all of them are in domain.
--
-- What is modelled, and where:
--   * Prelude: shared names, lists over native numbers, integers, sorting, equality of strings.
--   * Errors: domain/errors.go, the sentinels and their maps to HTTP and gRPC; Errors/Channel is
--     one trip through `ToGrpcError` and `FromGrpcError`.
--   * Flow: Go functions that return a value and an error over a state. Sql: statements and
--     transactions run through `database/sql` in an environment that may fail any of them, picks the
--     row of a LIMIT without an order, and has a clock. Flow/Keeps and Sql/Keeps are rules for what an action keeps, Sql/Success for what the
--     steps of a block have done when it succeeds or fails; Sql/Calm is an environment that does not
--     fail. Flow/Meets, Sql/Meets and Backend/Meets are rules for what holds after an action that
--     succeeds and after one that fails; Sql/Focus runs a store among more tables than its own. Grpc:
--     the error handling around a gRPC method and call.
--   * Paginate: domain/paginate.go over int32 with its wrap-around.
--   * Friend: domain/friend.go. Friend/Table and Friend/Store are internal/repository/db/friend.go,
--     Friend/Service is internal/service/friend.go, Friend/Grpc is internal/grpc/friend.go.
--     Friend/Lifecycle has the abstract machine of one pair of users, Friend/Safety the histories of
--     calls in any environment, Friend/Lists the counts and the lists, Friend/Http the HTTP status.
--   * Auth: Auth/Users is internal/repository/db/user.go, Auth/Sessions is
--     internal/repository/dbRedis/sesssionRedis.go, Auth/Service is internal/service/auth.go,
--     Auth/Grpc is internal/grpc/auth.go, and Auth/Gate is `AuthMiddleware` of
--     internal/handler/middleware.go over `IsLoggedIn` of internal/handler/auth.go.
--     Auth/Access is what the middleware grants, Auth/Lives the life of a session, Auth/UserTable,
--     Auth/Accounts and Auth/Login the users, the registration and the login.
--   * Uploads: internal/service/upload.go but for the lookup of a path; a write that fails can leave a
--     part of the file. Backend: the tables and the
--     directory that a service works on; Backend/Keeps and Backend/Success are rules for its calls.
--   * Community: domain/community.go. Community/Table and Community/Store are
--     internal/repository/db/community.go, Community/Service is internal/service/community.go.
--     Community/Safety has the histories of requests in any environment, Community/Members the
--     subscriptions, Community/Owners the refusals.
--   * Chat: domain/chat.go and domain/message.go. Chat/Table, Chat/Store and Chat/Messages are
--     internal/repository/db/chat.go and internal/repository/db/message.go, Chat/Service is
--     internal/service/chat.go. Chat/Inserts and Chat/Posting are what a new message leaves,
--     Chat/Keys and Chat/Pairs the chat of two users, Chat/Notice what is sent to the others,
--     Chat/Unread how far a member has read.
--   * Comment: domain/comment.go. Comment/Table and Comment/Store are
--     internal/repository/db/comment.go, Comment/Service is internal/service/comment.go, over the
--     store of posts; Comment/Rows and Comment/Authors are whose comments change.
--   * Post: domain/post.go. Post/Table and Post/Store are internal/repository/db/post.go,
--     Post/Service is internal/service/post.go, over the store of communities and the directory of
--     uploads. Post/Rows and Post/Kept are whose posts a statement and a transaction change,
--     Post/Requests and Post/Authors the histories of requests, Post/Refusals the requests for
--     another's post, Post/Rightful who writes in a community, Post/Likes the likes, Post/Posting and Post/Reading a new post, Post/Strands the
--     files that a failure leaves. The time that UpdatePost sets is that of the trigger set_updated_at.
--   * Profile: domain/profile.go. Profile/Table and Profile/Store are
--     internal/repository/db/profile.go, Profile/Service is internal/service/profile.go, Profile/Grpc
--     is internal/grpc/profile.go. Profile/Owners is whose profile a request changes,
--     Profile/Pictures what becomes of the files.
--   * Application: domain/application.go. Application/Store is
--     internal/repository/db/application.go, Application/Service is internal/service/application.go,
--     Application/Http is CreateApplication of internal/handler/application.go and
--     TempSessionMiddleware of internal/handler/middleware.go, whose goroutine is started after the
--     handler, unless that has panicked.
--     Application/Status has the histories of requests, Application/Owners those through the
--     middleware, in which the goroutines run at any later time, each of them at once.
--   * Sticker: domain/sticker.go. Sticker/Store is internal/repository/db/sticker.go,
--     Sticker/Service is internal/service/sticker.go, Sticker/Packs what a pack shows.
--   * Hub: internal/service/WSClient.go, whose goroutines are a step relation in Hub/Steps;
--     Hub/Safety holds in every order of their steps, and Hub/Races is where they collide.
--
-- A store's methods act on the tables as lists of rows, with the constraints of
-- db/migrations/20251008113339_init_db.up.sql; a query without an order gives the rows in the
-- table's order. A failed statement, or a failed commit, leaves the rows as they were. Ids and
-- times are natural numbers, texts are strings, and a status is a constructor. All recursion is
-- structural; the cascade of deleted comments runs a round for each row, more than which no chain of
-- replies can need.
--
-- Parameters, with what their documentation promises: the gRPC status package (Errors/Status),
-- Redis, the JSON package and the random source (Auth/Sessions), bcrypt, govalidator, the profile
-- service and the search index (Auth/Service), the clients of the other services (Friend/Service,
-- Community/Service, Chat/Service, Comment/Service, Post/Service, Profile/Service,
-- Application/Service), the names of new files (Uploads), the parser of UUIDs and new UUIDs
-- (Application/Http).
--
-- Not modelled: logging, metrics and contexts, which change no answer; the expiry of sessions;
-- HTTP encoding, and the handlers that only decode, call a service and answer; the calls that keep
-- the search index of communities, whose errors are only logged; and the stores of the search index.
pub mod Prelude
pub mod Errors
pub mod Flow
pub mod Paginate
pub mod Post
pub mod Profile
pub mod Sql
pub mod Sticker
pub mod Friend
pub mod Grpc
pub mod Application
pub mod Auth
pub mod Hub
pub mod Backend
pub mod Community
pub mod Chat
pub mod Comment
pub mod Uploads
