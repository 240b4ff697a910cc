-- ===== src/Lib.antt =====
-- A verification of MyStreamer, a camera server that sends pictures and streams to a web page.
--
-- The page shows the camera by a script that asks for single pictures or for a stream (web/camera.js),
-- and changes the camera's properties by posting JSON (web/cameraproperties.js), which the server reads
-- with its own parser (base/base_json_parser.cpp). The server hands data between its threads in ring
-- buffers (base/base_ring_buffer.h). Each picture of the camera is copied (imgproc/image.cpp) into the data
-- of the web server, from where the requests for pictures and streams take it (webcamera).
--
-- Player models web/camera.js. The variables of the closure, the element's address and the scheduled
--   calls of refreshImage are the record Page; refresh_image, on_image_error, on_image_loaded and start
--   are the functions of those names. The engine's numbers are the parameter Numbers. Player/World adds
--   the browser as a step relation: a request ends by load or error, a stream fires load for a part,
--   a timer fires. Player/Pace and Player/Urls hold the theorems on times and addresses.
-- Properties models web/cameraproperties.js. JSON.stringify is a parameter; what is assumed of it is
--   the record Stringify of Properties/Wire, which joins the page to the server's parser.
-- Controls models the script of web/cameraproperties.html: what it shows of the properties and their values,
--   and the two requests for them, whose replies come in any order in Controls/Loading. Controls/Reset is
--   its button for the defaults, and Controls/Defaults joins that to the server and the camera.
-- Json models base/base_json_parser.cpp. A pointer into the text is the text that is left, and its end
--   the terminator. The functions call each other, so they take fuel: three steps for each byte, which
--   Json/Leaves and Json/Fuel show to be enough. Json/Strings and Json/RoundTrip hold the lemmas
--   on what is read back.
-- Errors models base/base_error.h, the codes and their messages.
-- Camera models the properties of camera/V4L2/v4l2_camera_data.cpp: what is kept while the camera does
--   not run, and the end of Init, which sets it. The two calls of ioctl are the parameter Device.
--   Camera/Config is camera/V4L2/v4l2_camera_config.cpp, properties by name; sscanf and sprintf are the
--   parameter Format. Camera/Deferred compares the two ways in which a property is set,
--   Camera/ReadBack what is set with what is read. Camera/Ranges is what the device tells of a property,
--   Camera/Info how that is printed, Camera/Fits its place in the buffer, and Camera/Offered compares it
--   with what can be set.
-- Http models network/http: Http/Response what a handler fills in and what is printed of it, Http/Request
--   the request, Http/Context the parser, which is called for each piece of a request. Its loop takes
--   fuel, one round more than there are bytes, which Http/Context/Rounds shows to be enough. A call that
--   fails the assertion of setMethod has that outcome. Http/Server is onMessage and onRequest; the calls
--   of the connection are a list of events, and the handlers of requests are a parameter.
-- Service models webcamera/web_camera_control_handler.cpp: HandlePostRequest, which joins the parser and the
--   camera, and in Service/Get HandleGetRequest, with StringReplace of base/base_str_tools.cpp. Service/Post
--   holds the theorems on any text, Service/Page those on what the page posts, Service/Get/Names those on
--   the names that are asked for. Service/Handlers are the two classes of handlers, of which one asks for no
--   names and the other is empty, so that in the program no post reaches HandlePostRequest.
-- Ring models base/base_ring_buffer.h: CircuBuffer in Ring/Circu, BaseSimpleRingBuffer in Ring/Simple,
--   there both as calls that run in one piece and, in Ring/Simple/Threads, as the shared accesses of two
--   threads, which take place in one order; the theorems on them are in Ring/Simple/Order. Weaker memory
--   orders are not modelled. BaseSingleRingBufferData is Ring/Single, its memory a list of bytes and malloc
--   a parameter; Ring/Single/Sizes is about the size it gets, Wrap, Fifo and Runs about what is written
--   and read, Forced about ForceWrite and GetDataLen. The loop that rounds a size takes 32 rounds of fuel,
--   enough for every number whose sign is not set. Its two threads are not modelled.
-- Images models imgproc/image.h, image.cpp and img_tools.cpp: the memory of an image is the list of its
--   bytes, and what malloc and calloc give is the parameter Heap. Images/Sizes is about lines and rows,
--   Images/Rows the loop over the rows, Images/Copies and Images/Clones CopyData and CopyDataOrClone.
--   The product in Allocate wraps round; the theorems are about images below 2^31 bytes.
-- Stream models the way of a picture from the camera to the requests: webcamera/video_listener.cpp,
--   which copies it, video_source_to_webdata.cpp, which puts it into a buffer, and
--   web_request_handler.cpp, which answers. What the camera's thread does in the midst of a request is
--   its parameter Visits. Stream/Reach is the relation of what happens to the data, with Stream/Safe its
--   invariant; Stream/Shown and Stream/Pictures are about the bytes that are answered, Stream/Pace about
--   the timer, Stream/Stuck about the buffer that is lost, and Stream/Race about a request and the
--   camera's thread.
-- Web models webcamera/web_camera_server.cpp and file_request_handler.cpp, which find the answer to a
--   request. The files are a parameter, and a handler is what it makes of a request at that moment.
--   Web/Dispatch is about which answer is given, Web/Fetch joins the parser, the server and the handler of
--   files, Web/Uris is about the addresses of handlers.
-- Capture models the start and the end of the camera's thread in camera/V4L2/v4l2_camera_data.cpp.
--   What the system's calls answer is a parameter, what is called a list; Capture/Balance is about that
--   list, Capture/Ready about the steps of Init and Capture/Release about the thread. Capture/Loop is
--   VideoCaptureLoop, what the system answers in a round of it a parameter: Capture/Loop/Frames is about
--   what the listener is shown, Capture/Loop/Buffers and Capture/Loop/Whole about the buffers that are
--   taken. A frame takes DecodeYuyvToRgb, of camera/V4L2/v4l2_tools.h, which is Yuyv: Yuyv/Channels is
--   about the three channels of a pixel, Yuyv/Pixels and Yuyv/Rows about where the pixels come from and
--   go.
-- Control models the thread of the same file: Start, SignalToStop, WaitForStop, IsRunning, the setters and
--   ControlThreadHandler, with the event of base/base_manual_reset_event.cpp. Control/Moves interleaves the
--   calls of one thread, which owns the camera, with the steps of the camera's thread; Control/Calls and
--   Control/Sound are about the calls, Control/Stops about the end of WaitForStop.
-- Program models what main.cpp joins: the handlers that the server is given. Program/Delivered puts the
--   camera's data, the parser, the server and the handler of pictures together.
-- Drawing models HLine, VLine and Rectangle of imgproc/image_drawer.cpp; the blending of colours that
--   are not opaque, in float, is a parameter. Drawing/Runs is about the loops, Drawing/Tracks about the
--   pixels that they go over, Drawing/Lines and Drawing/Rectangles about the calls.
-- Serializer models base/base_obj_configuration_serializer.cpp, which keeps an object's properties in a file.
--   The object is the parameter Configurator, and a file is its text. The loop over the lines takes fuel, one
--   round more than there are characters, which Serializer/Restored shows to be enough; Serializer/Lines
--   is about the lines.
-- Prelude holds the shared names, numbers, lists, texts as lists of codes, and std::map as a list of
--   pairs in the order of its keys; Prelude/Word is the arithmetic of uint32_t.
--
-- Not modelled: the event loop, the sockets and the threads of network (an adapted copy of muduo),
-- besides findCRLF of its buffer; jQuery, libjpeg, the V4L2 system calls, the drawing of text on
-- images, and the trimming of base/base_str_tools.cpp, which nothing calls. Of the accesses within
-- a request only the calls of the camera's thread behind its first test and behind the encoding are
-- interleaved, and two requests at a time are not modelled.
pub mod Prelude
pub mod Player
pub mod Json
pub mod Properties
pub mod Ring
pub mod Errors
pub mod Camera
pub mod Http
pub mod Service
pub mod Images
pub mod Stream
pub mod Web
pub mod Capture
pub mod Serializer
pub mod Yuyv
pub mod Program
pub mod Control
pub mod Drawing
pub mod Controls
